-- ===== src/Colocation/Tests.antt =====
-- A rollout that lends its GPU to a trainer.
use meshy.Prelude.{
  ℕ, ◌≡◌, refl, String, true, Option, none, some, [], ◌∷◌, str_eq, eq_iff, if◌then◌else◌, Result,
  ok, err, arith, inl, inr,
}
use meshy.Colocation.Ring.{
  ColocationRing, GpuGrant, GpuRequest, SchedulingMode, ColocationError, fallback, on_demand,
  on_demand_request, post_init, unknown_service, ring_index_for, mode_for,
}
use meshy.Colocation.Manager.{
  RequestRecord, open_row, granted_row, Manager, owns_gpu, fresh_manager, issue_genesis,
  genesis_grant, genesis_request,
}
use meshy.Colocation.Rows.{opened, run_request, noted, is_candidate, hand_over, candidates}
use meshy.Prelude.{◌≢◌}
use meshy.Colocation.Ring.{endless_recursion}
use meshy.Colocation.Transfer.Settling.{select_next_settles}
use meshy.Colocation.Transfer.InOrder.{NoLater}
use meshy.Colocation.Transfer.Choice.{Vacates, select_next-in_turn, hand_over-Vacates}
use meshy.Colocation.Transfer.{ensure_fallback_request, reconcile_record, select_from, select_next}
use meshy.Colocation.Exclusion.{
  System, after, update, turns, requests, IsStart, Reaches, starts, steps,
}
use meshy.Colocation.Exclusion.Chain.{IsChain}
use meshy.Colocation.Exclusion.Invariant.{one_owner, published-IsChain}

abbrev pair : ColocationRing
pair = record {
  group_id = "gpu";
  ring =
      record { service_id = "rollout"; mode = fallback }
      ∷ record { service_id = "trainer"; mode = on_demand }
      ∷ [];
  poll_interval = 1;
  next_owner_timeout = 3;
}

pair_passes : post_init pair ≡ ok tt
unfolding post_init
pair_passes = refl

abbrev fallback_name : String → ℕ → String
fallback_name s n = s

abbrev genesis : GpuGrant
unfolding genesis_grant
genesis = genesis_grant pair "genesis:gpu" "rollout"

abbrev genesis_row : RequestRecord
unfolding genesis_request
genesis_row = record {
  object_id = 1;
  handle = record {
    request = genesis_request pair "genesis:gpu" "rollout";
    version = 1;
    grant = some genesis;
  };
  state = granted_row;
  grant = some genesis;
}

abbrev modes : String → SchedulingMode
modes s = if str_eq s "rollout" then fallback else on_demand

abbrev begin : System
unfolding fresh_manager
begin = record { published = genesis ∷ []; managers = λ s. fresh_manager s (modes s) }

begin-IsStart : IsStart pair begin
unfolding issue_genesis fresh_manager mode_for
begin-IsStart = record {
  name = "genesis:gpu";
  genesis = genesis;
  events = _;
  issued = refl;
  published = refl;
  modes = modes;
  in_ring = λ s mode h.
      ground
        (arith, eq_iff s "rollout", eq_iff "rollout" s, eq_iff s "trainer", eq_iff "trainer" s);
  fresh = λ s. refl;
}

abbrev done_or : {A : Type 0} → Result ColocationError A → A → A
done_or (ok a) b = a
done_or (err e) b = b

-- The rollout reads the genesis grant.
reading : Option GpuGrant × Manager
unfolding reconcile_record genesis_row begin genesis
reading =
    done_or (reconcile_record pair fallback_name 7 (begin.managers "rollout") genesis_row [])
      (none, begin.managers "rollout")

reading_done :
    reconcile_record pair fallback_name 7 (begin.managers "rollout") genesis_row []
    ≡ ok (reading.0, reading.1)
unfolding reading reconcile_record genesis_row begin genesis
reading_done = refl

abbrev asked : GpuRequest
asked = record {
  group_id = "gpu";
  service_id = "trainer";
  request_id = "step 1";
  created_at_ns = 8;
  payload_ref = none;
  ring_index = 1;
  priority = 0;
  kind = on_demand_request;
}

abbrev asked_row : RequestRecord
asked_row = record { object_id = 2; handle = opened asked; state = open_row; grant = none }

-- The trainer asks, and the rollout hands the GPU over.
lending : Option GpuGrant × Manager
unfolding reconcile_record reading genesis_row begin genesis
lending = done_or (reconcile_record pair fallback_name 9 reading.1 asked_row []) (none, reading.1)

lending_done :
    reconcile_record pair fallback_name 9 reading.1 asked_row [] ≡ ok (lending.0, lending.1)
unfolding lending reading reconcile_record genesis_row begin genesis
lending_done = refl

abbrev lent : GpuGrant
lent = record {
  group_id = "gpu";
  sequence = 1;
  source = "rollout";
  target = "trainer";
  request_id = some "step 1";
  transition = "preempt";
  payload_ref = none;
}

lending_makes : lending.0 ≡ some lent
unfolding lending reading reconcile_record genesis_row begin genesis
lending_makes = refl

abbrev read_system : System
read_system = after begin "rollout" reading.0 reading.1

abbrev asked_system : System
asked_system = after read_system "trainer" none (run_request (read_system.managers "trainer") asked)

abbrev lent_system : System
lent_system = after asked_system "rollout" lending.0 lending.1

lent_reached : Reaches pair fallback_name begin lent_system
unfolding update begin genesis_row genesis reading
lent_reached =
    steps asked_system lent_system
      (steps read_system asked_system
        (steps begin read_system starts
          (turns begin "rollout" 7 genesis_row [] reading.0 reading.1 (inl refl) tt reading_done))
        (requests read_system "trainer" asked))
      (turns asked_system "rollout" 9 asked_row [] lending.0 lending.1 tt tt lending_done)

abbrev lent_row : RequestRecord
lent_row = record {
  object_id = 3;
  handle = record { request = asked; version = 1; grant = some lent };
  state = granted_row;
  grant = some lent;
}

-- The trainer reads the genesis grant, and then its own.
learning : Option GpuGrant × Manager
unfolding reconcile_record lending reading genesis_row begin genesis update
learning =
    done_or (reconcile_record pair fallback_name 10 (lent_system.managers "trainer") genesis_row [])
      (none, lent_system.managers "trainer")

learning_done :
    reconcile_record pair fallback_name 10 (lent_system.managers "trainer") genesis_row []
    ≡ ok (learning.0, learning.1)
unfolding learning reconcile_record lending reading genesis_row begin genesis update run_request
learning_done = refl

abbrev learnt_system : System
learnt_system = after lent_system "trainer" learning.0 learning.1

taking : Option GpuGrant × Manager
unfolding reconcile_record learning lending reading genesis_row begin genesis update run_request
taking =
    done_or (reconcile_record pair fallback_name 11 (learnt_system.managers "trainer") lent_row [])
      (none, learnt_system.managers "trainer")

taking_done :
    reconcile_record pair fallback_name 11 (learnt_system.managers "trainer") lent_row []
    ≡ ok (taking.0, taking.1)
unfolding taking learning reconcile_record lending reading genesis_row begin genesis update
    run_request
taking_done = refl

abbrev taken_system : System
taken_system = after learnt_system "trainer" taking.0 taking.1

taken_reached : Reaches pair fallback_name begin taken_system
unfolding learning lending reading reconcile_record genesis_row begin genesis update run_request
taken_reached =
    steps learnt_system taken_system
      (steps lent_system learnt_system lent_reached (
        turns lent_system "trainer" 10 genesis_row [] learning.0 learning.1 (inr (inl refl)) tt
          learning_done))
      (turns learnt_system "trainer" 11 lent_row [] taking.0 taking.1 (inl refl) tt taking_done)

abbrev trainer : String
trainer = "trainer"

trainer_owns : owns_gpu (taken_system.managers trainer) ≡ true
unfolding taking learning reconcile_record lending reading genesis_row begin genesis update
    run_request
trainer_owns = refl

one_owner_example : trainer ≡ trainer
one_owner_example =
    one_owner pair fallback_name begin taken_system trainer trainer begin-IsStart taken_reached
      trainer_owns trainer_owns

published-IsChain_example : IsChain taken_system.published
published-IsChain_example =
    published-IsChain pair fallback_name begin taken_system begin-IsStart taken_reached

-- The rollout as it finds the trainer's request.
asked_manager : Manager
unfolding noted reading reconcile_record genesis_row begin genesis
asked_manager = noted reading.1 asked_row

select_next-in_turn_example :
    (r : RequestRecord) × (select_next pair fallback_name 9 2 asked_manager
      ≡ ok (some r, asked_manager))
    × (is_candidate pair asked_manager r ≡ true)
    × NoLater 2 0 r asked_row
unfolding asked_manager noted reading reconcile_record genesis_row begin genesis ring_index_for
select_next-in_turn_example =
    select_next-in_turn pair fallback_name 9 1 asked_manager 0 asked_row refl refl (inr (inl refl))
      refl

-- The owner by the genesis grant has no one to return the GPU to.
genesis_raises : select_next pair fallback_name 9 2 reading.1 ≡ err unknown_service
unfolding select_next select_from ensure_fallback_request reading reconcile_record genesis_row begin
    genesis ring_index_for candidates
genesis_raises = refl

handing : Option GpuGrant × Manager
unfolding asked_manager noted reading reconcile_record genesis_row begin genesis hand_over
handing = done_or (hand_over pair asked_manager asked_row "preempt" none) (none, asked_manager)

handing_done : hand_over pair asked_manager asked_row "preempt" none ≡ ok (some lent, handing.1)
unfolding handing asked_manager noted reading reconcile_record genesis_row begin genesis hand_over
handing_done = refl

hand_over-Vacates_example :
    Vacates trainer lent asked_manager.trace handing.1.trace × (lent.target ≡ trainer)
unfolding asked_manager noted reading reconcile_record genesis_row begin genesis
hand_over-Vacates_example =
    hand_over-Vacates pair asked_manager asked_row "preempt" none lent handing.1 refl handing_done

select_next_settles_example : select_next pair fallback_name 9 2 reading.1 ≢ err endless_recursion
unfolding reading reconcile_record genesis_row begin genesis
select_next_settles_example = select_next_settles pair fallback_name 9 reading.1 (refl, tt)
