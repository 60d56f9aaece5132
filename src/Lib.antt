-- ===== src/Lib.antt =====
-- Meshy: reinforcement learning of language models by services that share no driver. This library
-- models the parts of the program that decide, in exact terms, what the services do.
--
-- Planner models meshy/backend/titan/plan.py. A trainer's controller calls build_plan once for
-- each batch; the plan says which samples each data-parallel rank trains on, in which mini-batches
-- and which packed micro-batches. Types holds PlannerConfig with its __post_init__, MicroPlan,
-- MiniPlan, Plan, round_up and filler_micro. Snake is _snake, Pack is _pack_micros, Build is
-- build_plan, and Align is resolve_align, with math.lcm as a parameter. Token counts are natural
-- numbers: the code's negative settings are those that its checks refuse. A layout other than the
-- two cannot be written down.
--
-- Checkpoint models meshy/service/checkpoint.py and GlobalCheckpointConfig of meshy/config.py.
-- Disk is the state directory: for each service its payload directories, sidecars and markers by
-- step. An operation of StateStore is the list of its effects on the directory (Store), each
-- effect atomic: the code writes a sidecar or marker under another name and renames it. A crash
-- runs a first part of that list. Resume is resolve_resume_step, which every restart runs, and
-- run_resume_step.
--
-- Colocation models meshy/service/colocation.py with the rows of
-- meshy/transferqueue/colocation.py. Ring holds ColocationRing with its checks, GpuRequest and
-- GpuGrant. Manager is the state of ColocationManager, _apply_grant and issue_genesis; Rows and
-- Transfer are its other methods: _select_next, _ensure_fallback_request, _reconcile, _transfer
-- and _transfer_locked. What a manager writes to the ledger and the callbacks it calls stand in
-- its trace. The clock and the name of a fallback request are parameters; the scans that a waiting
-- transfer makes until its deadline are a list. _requests, which nothing reads, is left out.
-- Exclusion is all managers of a ring: in a step one of them takes one turn of the loop of
-- _reconcile, releases, or asks. _select_next calls itself; its model is given two calls, and
-- raises where a third would start.
--
-- Rollout models how RolloutWorker of meshy/worker/rollout.py paces generation by the gates of the
-- trainer, and how it snapshots and restores its counters through Checkpoint. The gates that
-- arrive are a list, in order; a worker that finds the list at its end goes on waiting. Weight
-- versions are natural numbers: the version -1, of a gate that carries none, is left out.
--
-- Reward models response_length and soft_overlong_penalty of meshy/reward.py.
--
-- Topology models build_topology of meshy/service/topology.py, from which every process derives
-- where each service runs: Types holds GPU and ServiceGroup of meshy/service/base.py, the
-- attributes of ServiceConfig of meshy/config.py, and ServiceInfo; Place is the loop over the
-- groups, Attach is _attach_colocations, Checks are _validate_ports, _validate_critic_columns and
-- _validate_checkpoint, Build is the whole, and Lookups are the methods of Topology. The name of a
-- replica and the text of an endpoint are parameters. A port or a count is a natural number; a
-- dictionary is an association list, and a set of groups the list of a ring's nodes.
--
-- Ignition models _check_resume of meshy/service/ignite.py, which joins Topology and Checkpoint:
-- it resolves the step at which every participant has committed, publishes it, and on rank 0 drops
-- the newer shards. Ignition/Startup is how run and _gate_and_start bring the services up: each
-- rank has its tasks in order (run_tasks, which Order gets from the stages), and the ranks take
-- them in any order; that an engine is ready once all its ranks have started it is what the model
-- takes of the engines, and time limits are left out.
--
-- Worker models TQInput, TQOutput and TQWorker of meshy/worker/tq.py. The client, the adapter, and
-- process_tq_batch and should_clear_batch, which the workers of the roles override, are the fields
-- of a record that answer by the calls made so far, or raise. What a worker reads and writes
-- stands in its history, one entry for each call, with whether it succeeded. A result that is no
-- mapping, and the seconds in _tq_stats, are left out; run_tq_worker, which repeats run_tq_once,
-- and the threads around the client are not modelled.
--
-- Critic models the data and the worker of the critic. Data and Split are samples_from_rows,
-- load_samples and split_by_prompt of meshy/backend/titan/critic/data.py: which rows are of one
-- prompt, and how they are divided without splitting a prompt. Rewards are of any type, and the
-- shuffle is a parameter. Windows is what CriticWorker of meshy/worker/critic.py decides about a
-- batch, and Steps what TitanWorker of meshy/worker/titan.py does; the engines' answers are
-- arguments, and the process_tq_batch of both is what Worker leaves open.
--
-- All other recursion is structural, but for walk_back of Critic, which gets as many rounds as the
-- total that it starts from, and each round lessens that; so nothing else runs on fuel. Logs, time
-- stamps, process handling and tensors are not modelled.
pub mod Prelude
pub mod Planner
pub mod Checkpoint
pub mod Colocation
pub mod Rollout
pub mod Reward
pub mod Topology
pub mod Ignition
pub mod Worker
pub mod Critic
