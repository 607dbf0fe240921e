-- ===== src/Lib.antt =====
-- LlamaWebUI: the control plane for a local llama.cpp server (backend/src/llamawebui).
--
-- The parts and how they interact. A login goes through the throttle
-- (backend/src/llamawebui/services/login_throttle.py) and then to the account service
-- (backend/src/llamawebui/services/auth_service.py), which opens a session; each later request
-- resolves its session and is checked against the privilege that its path and method need
-- (backend/src/llamawebui/services/authorization.py). Downloads are planned and recorded by the
-- download registry (backend/src/llamawebui/services/download_registry.py,
-- backend/src/llamawebui/domain/download_job.py), which the download workers
-- (backend/src/llamawebui/services/download_worker.py) report to; the coordinator
-- (backend/src/llamawebui/services/download_coordinator.py) starts and stops them. The groups
-- that can be downloaded are made from the file list of a repository
-- (backend/src/llamawebui/domain/model_manifest.py). Before a profile is launched, the memory
-- that its model takes is estimated and the placement that llama.cpp's --fit finds is followed
-- (backend/src/llamawebui/services/memory_estimate.py). A profile's arguments are read, migrated,
-- validated and emitted against the argument catalog
-- (backend/src/llamawebui/domain/profile_arguments.py,
-- backend/src/llamawebui/domain/argument_catalog.py). The router process is started with checked
-- arguments (backend/src/llamawebui/domain/router_lifecycle.py) by its supervisor
-- (backend/src/llamawebui/services/router_supervisor.py), which restarts it when it crashes.
--
-- The files:
-- - Prelude.antt and Prelude/: the shared names; Tests, Lists, Order and Text have Boolean tests,
--   lists, orders and texts over the native numbers, and Table has a database table as a list of
--   rows that is read and written by a key.
-- - Throttle.antt: `LoginThrottle`, `_Bucket` and `LoginAttempt` of
--   backend/src/llamawebui/services/login_throttle.py. The buckets are a function of the key,
--   times are whole microseconds. Throttle/Attempts has the run of logins as a step relation,
--   Throttle/Laws the lemmas on one bucket, Throttle/Lockout and Throttle/Outcomes the
--   properties.
-- - Auth.antt: Auth/Privileges is backend/src/llamawebui/services/authorization.py; Auth/State
--   has the tables of backend/src/llamawebui/models.py, Auth/Roles, Auth/Users and Auth/Sessions
--   the methods of `AuthService` in backend/src/llamawebui/services/auth_service.py, one function
--   each, and Auth/HashCache is the cache of `_is_default_hash`. Auth/Administrators,
--   Auth/Resolve, Auth/Access and Auth/Startup have the properties. The password hasher is the
--   parameter `Hasher`, `str.strip` the parameter `Text`; identifiers, salts and the time are
--   arguments.
-- - Downloads.antt: Downloads/Job is backend/src/llamawebui/domain/download_job.py and the row of
--   backend/src/llamawebui/models.py; Downloads/Registry has the methods of `DownloadRegistry`,
--   Downloads/Plan its `create`. The path library, the model folder and the free space are the
--   parameter `Host`. Downloads/Manifest is `group_gguf_files` of
--   backend/src/llamawebui/domain/model_manifest.py, with the parameter `Names` for texts and the
--   shard pattern. Downloads/Publish is `_publish` and `_merge`, where any move may fail,
--   Downloads/Retry `_download_with_retries` and Downloads/Worker the rest of `DownloadWorker` in
--   backend/src/llamawebui/services/download_worker.py: Worker/Check has the checks of files,
--   Worker/Watch the progress loop and Worker/Run `run`; Worker/Keeps, Worker/Folder,
--   Worker/Traced, Worker/Verified, Worker/Loaded and Worker/Delivered have the proofs of what a
--   run leaves, and Worker/Live, Worker/Succeeds, Worker/Counted, Worker/Ready and
--   Worker/Completes those of a run whose transfers succeed. What other parts ask of the registry
--   at an await, and the answers of the transfer, are given by the records `Poll` and `Visit`;
--   the digests, resolved paths and error texts are the parameter `Machine`.
--   Downloads/Coordinator is backend/src/llamawebui/services/download_coordinator.py, with its
--   tasks and their start in Coordinator/Start and a turn for each of its calls in
--   Coordinator/Turns.
-- - Memory.antt: backend/src/llamawebui/services/memory_estimate.py. Memory/Model has the model
--   file and the settings, Memory/Placement `_Placement`, Memory/Weights, Memory/Layers and
--   Memory/Cache the parts of the estimate, Memory/Estimate `_compute` and
--   `_ModelEstimate.build`, Memory/Fit `_fit` and Memory/Search its binary searches, Memory/Total
--   `estimate_memory` and `_growth`. Regular expressions are the parameter `Patterns`; metadata
--   values and options are read as `_int` decodes them; cache sizes are whole 32nds of a byte,
--   where the source has floats that are exact at these sizes.
-- - Router/Supervisor.antt: backend/src/llamawebui/services/router_supervisor.py. Each function
--   is what a method does between two awaits, and `handle` the event that resumes it; time is the
--   event `time_passes`, in microseconds. Router/Supervisor/State has the state and `start`,
--   Router/Supervisor/Log the bounded log.
-- - Router.antt: backend/src/llamawebui/domain/router_lifecycle.py, the states of the router
--   process and `RouterLaunch.arguments`. The file system and the parser of addresses are the
--   parameter `System`.
-- - Profile.antt: launch profiles. Profile/Catalog is
--   backend/src/llamawebui/domain/argument_catalog.py; the others are
--   backend/src/llamawebui/domain/profile_arguments.py: Profile/Value has the values,
--   Profile/Coerce `coerce_catalog_value` (Coerce/Types has the types of values), Profile/Emit
--   `emit_arguments`, Profile/Legacy `migrate_legacy_configuration` and Profile/Validate
--   `validate_arguments`, with the issues of one argument in Validate/Issues. Python's texts,
--   numbers and patterns are the parameter `Python`; a float is its `repr`. Profile/CommandLine
--   is `_split_windows_command_line` of backend/src/llamawebui/domain/model_profile.py, on lists
--   of code points, with its rules read one character at a time in CommandLine/Reference.
-- - TextEdit.antt: backend/src/llamawebui/services/text_edit.py, on lists of code points:
--   TextEdit/Matches looks for the search, TextEdit replaces it. TextEdit/Occurrences and
--   TextEdit/Replace have the proofs.
--
-- A method that raises an error commits nothing, so its result is an error without tables.
-- Recursion is structural on lists; the binary searches run on fuel, the limit of the search, and
-- each turn takes at least one value out of the range; the retries of a transfer count down from
-- their limit; the loop over the occurrences of a search has one turn more than the text has
-- characters, and each turn moves on by the length of the search, which is not empty; the loops
-- over a command line have one turn more than it has characters, and each takes at least one of
-- them. Each method runs as one transaction; interleavings of logins are the steps of
-- Throttle/Attempts, those of the supervisor's tasks the events of Router/Supervisor, and those
-- of a download the calls that its polls and visits carry.
--
-- Not modelled: the HTTP application (backend/src/llamawebui/app.py), which wires routes to the
-- services, and the listings, which only read; processes, remote services, event streams, the
-- scans of the model folder, the assistant and the benchmarks, whose results depend on what these
-- answer; the reader of binary headers (backend/src/llamawebui/services/gguf_reader.py); the
-- recommendations and the registries of tokens, runtimes, models, profiles and server runs, which
-- are tables like those of the accounts and the downloads and are left out for the size of the
-- development; the database library. Outside Auth/HashCache the answer of `_is_default_hash` is
-- taken to be the hasher's. Of an estimate, the texts and notes that explain it and the decoding
-- of option texts are left out. Of the profiles, the messages of issues, `build_arguments`, the
-- structured store, presets and the mapping of a command's options are left out; of the
-- supervisor, the readers of its output and the process handles; of the downloads, the transfer
-- process itself, file operations that fail beside the moves of a publication and the
-- coordinator's removal of a staging folder, and the quantization that a key names; of the text
-- edits, the messages of errors.
pub mod Prelude
pub mod Throttle
pub mod Auth
pub mod Downloads
pub mod Memory
pub mod Router
pub mod Profile
pub mod TextEdit
