-- ===== src/Lib.antt =====
-- Argus review: the decisions of a reviewer of pull requests.
--
-- A run fetches a pull request, checks its scope, plans reviewers, dispatches them in parallel,
-- checks coverage, lets a writer assemble a response, lets a validator re-check its BLOCKING
-- findings, applies the verdict gates, and stores the round. The parts are joined by one state,
-- `ReviewState` of argus/graph.py, which each node updates; a node that halts the run stores a
-- BLOCKING response, and the edges then end the run.
--
-- Files:
--   Models, Pipeline: argus/models.py and argus/pipeline_models.py, records and enumerations.
--     Pipeline.Failure: `_sync_timed_out_and_failure_reason`.
--   Scope: argus/scope.py. Scope: `validate_assessment`, `dispatch_count`, `require_receipt`,
--     `halt_response`; Scope.Order: the dependency order that `validate_assessment` takes from
--     graphlib; Scope.Input: `build_scope_input` and the JSON text it writes; Scope.Override:
--     `validate_override` and `validate_expect_head_sha`.
--   Gates: argus/helpers.py. Gates: the gates for scanners and reviewers; Gates.Labels: failure
--     labels and coverage-gap findings; Gates.Header: the rewritten verdict line;
--     Gates.BenchConfig: `apply_bench_config_change_gate`; Gates.Counts: the persisted counts.
--   Validator: `_parse_validation_result` of argus/runners.py.
--   Graph: argus/graph.py. Graph: the state, `_halt_update`, `_override_reason`; Graph.ScopeGate:
--     `_node_scope_gate`; Graph.Dispatch: `_node_plan`, `_edge_fan_out_reviewers`,
--     `_node_collect_findings`; Graph.Coverage: `check_coverage`, `_node_check_coverage`, its
--     edge and the gap fan-out; Graph.Validate: `_node_validate_blockings`; Graph.Finish: the end
--     of `run_review`; Graph.Precheck: `_node_precheck_fail`; Graph.Preflight:
--     `_edge_preflight_decision`, `_is_high_blast_radius`, `_is_image_tag_bump_only`;
--     Graph.Preflight.Headers: the file headers of a diff, described by their form.
--   Storage: argus/storage/sqlite.py, the table of rounds with `upsert_running_row`,
--     `upsert_completed_row` and `select_latest_completed_round`, and `_fetch_prior_review` of
--     argus/graph.py. A row's time is a number; the SQL statements are functions of the table.
--   Gemini: argus/gemini_runner.py. Gemini: exceptions and `_retry_decision`; Gemini.Tools:
--     `_execute_tool_call`, `_parse_text_findings`, and `report_finding` and `finish_review` of
--     argus/review_tools.py; Gemini.Turns: the loop of `_run_turns`; Gemini.Session:
--     `_run_turns_with_retry` and `run_session_gemini`. The service is an oracle that answers each
--     request from its number, the use of a cache and the conversation; a cancellation by
--     `asyncio.wait_for` is one of its answers, so it is modelled at requests only.
--   Bench: argus/bench.py. Bench: `_deep_merge`, `infer_platform_for_model`,
--     `_infer_platforms_for_overlay`; Bench.Validate: `_validate_raw_bench`, where an error is a
--     value that names what the message names; Bench.Resolve: the layers, `_load_bench_cached` and
--     `resolve`. Files, their decoding and the names of the packaged prompts are parameters.
--   Engine: `run_precheck` of argus/precheck/engine.py, the record of argus/precheck/sarif.py,
--     `extract_changed_files` of argus/helpers.py and `_node_precheck_rules` of argus/graph.py for
--     a run with a worktree. What a scanner finds, and the statuses of rules, are parameters.
--   Worktree: argus/repo_provision.py, `provision_worktree`, `teardown_worktree` and
--     `provisioned_worktree`. The answers of git and of the file system are one record for a run.
--   Github: argus/github_client.py, `_paginate`, `get_compare_files`, `get_pr_files`,
--     `get_checks_signal`, `find_argus_comment`, `upsert_pr_comment` and `set_commit_status`. A
--     request for a page is an oracle; a write is the request that is sent. Graph.ScopeGate.Manifest
--     joins the scope gate to `get_compare_files`.
--   Examples: the theorems at concrete inputs.
--
-- Conventions: a function that mutates its response returns the new one; an exception is an `err`;
-- a Python set is a list without its duplicates; an empty dictionary in the state is `none`. Models,
-- GitHub, JSON decoding and settings are parameters. `merge_order` of Scope.Order has one round of
-- fuel per behavior, which is enough since every round but the last removes one; `show` has its
-- number as fuel, and a number has no more digits than that. The loop `turns` of Gemini.Turns
-- recurses on the turns that remain of the hundred that the source gives it. The loops of Github
-- have fuel, and more fuel than the service has items is proved to be enough.
--
-- Not modelled: durations, prices; model clients and wire schemas, prompts, the sessions of the
-- other providers and their subprocesses; the other GitHub calls; git itself, its authentication
-- and the redaction of its output; the scanners of argus/precheck; the command line; logging.
pub mod Prelude
pub mod Models
pub mod Pipeline
pub mod Validator
pub mod Scope
pub mod Gates
pub mod Graph
pub mod Storage
pub mod Gemini
pub mod Bench
pub mod Engine
pub mod Worktree
pub mod Github
pub mod Examples
