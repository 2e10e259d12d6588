-- ===== src/Lib.antt =====
-- Cerise: a REST service that runs CWL workflows on a remote compute resource.
--
-- The front end (cerise/front_end) and the back end (cerise/back_end) are two processes that share a
-- SQLite database, the job store (cerise/job_store). A front-end thread handles a request by a few
-- statements on the database; the back end has one thread, which goes through the jobs again and again
-- and moves each one along: it stages the input in, submits the job to the scheduler, follows it
-- there, and gets the results back. A column `state` of the table `jobs` says where a job is; a cancel
-- request moves it to a state whose name ends in `_CR`, which the back end later acts on.
--
-- Which file is about what:
--   JobState        cerise/job_store/job_state.py: the states and their classes
--   JobStore        cerise/job_store/sqlite_job_store.py and sqlite_job.py: the tables and the
--                   statements on them (create_job, list_jobs, get_job, delete_job, try_transition,
--                   add_log, _get_var, _set_var); JobStore/Pool has __enter__ and __exit__, the
--                   connections that the threads share
--                   (each for the thread that opened it)
--   Front           cerise/front_end/controllers/default_controller.py: the request handlers;
--                   Front/Steps splits them into single statements
--   World           the back end's actions: a call returns or raises, and changes the database, the
--                   history of calls to the outside and the variables of `_process_jobs`
--   Value, Cwl      parsed YAML and JSON documents, and cerise/back_end/cwl.py and file.py; Listed and
--                   Named are about the files of a binding
--   Config          cerise/config.py: the getters; `kind` and the variables' names are data types here
--   JobPlanner      cerise/back_end/job_planner.py; Plan says what a plan is
--   JobRunner       cerise/back_end/job_runner.py; Reserving joins it to what JobPlanner plans
--   LocalFiles      cerise/back_end/local_files.py: the file exchange with the clients
--   RemoteJobFiles  cerise/back_end/remote_job_files.py: the files of a job on the compute resource;
--                   Names has the names that staged files get
--   RemoteApi       cerise/back_end/remote_api.py: the projects of the API, their versions
--                   (Versions), the translation of workflows and steps (Translate), and the
--                   installation (Install for one project, Projects for `install`)
--   ExecutionManager  cerise/back_end/execution_manager.py: the methods on one job; Process has the
--                   loop `_process_jobs`, a round of `execute_jobs` and the recovery at start-up;
--                   Contract states what the methods promise; Interface is what it asks of its
--                   parts, and Parts puts the modelled parts in their places;
--                   Service is the start and the loop of execute_jobs, and Serving the process of
--                   cerise/run_back_end.py. What holds of a job from round to round is proved by rules for
--                   invariants (World/Keeps): Methods and Handling follow the code of one job, Loops
--                   the loops, Bystander and Subject show what the steps on a job do to another job and
--                   to itself, and Safety, Resubmission, Retention and Clients have the invariants;
--                   Cancelling says how the replies of the scheduler decide;
--                   Undisturbed is about a round in which nothing goes wrong outside
--   Cwltiny         api/cerise/files/cwltiny.py, the program that runs a workflow on the compute
--                   resource: Normalise, Workflow (references between steps), Run (the loop over the
--                   steps), CommandLine, Output and Tool
--   Prelude, Text, Exception, FileSystem  shared names, integers, Python's operations on texts,
--                   exceptions and outcomes, paths and the calls on them
--   Examples        the theorems applied to one concrete back end and job, to documents and to texts
--
-- Concurrency. A statement on the database is atomic. The world has a list `env` of what the front
-- end does: its next batch of statements runs before each statement of the back end, so that a theorem
-- for every `env` is one for every interleaving. Conditions on a job between two statements are
-- therefore ones that cancel and delete requests keep.
--
-- The outside. The replies of the scheduler and of the file systems and the clock are functions (`Site`)
-- of the calls made so far; `urlparse`, `json.loads` and `json.dumps`, `yaml.safe_load`, the writing
-- of a path and of a hexadecimal id, and the base URL are parameters. The id of a job is a number, which
-- `uuid4().hex` writes in hexadecimal; that `uuid4` draws no id twice is an assumption where it is
-- needed. File contents are strings. A document is a value: that two places of a document may be
-- one object, by a YAML alias or in cwltiny's dictionaries, is not represented, and a change to one of
-- them does not show in the other.
--
-- Loops run over lists, by structural recursion. The loop of run_workflow in cwltiny is on fuel: it is
-- a number of rounds. A round executes one step or none, so that as many rounds as there are steps to
-- be executed are enough, unless a round is reached in which no step can run; there the program does
-- not end either. Waiting for the installation script is on fuel too, the number of looks; it returns
-- false where none found the script. `decimal_from` writes a number with as much fuel as the number
-- plus one. The loop of `execute_jobs` does not end by itself: its fuel limits the rounds.
--
-- Not modelled: the decorator of the package `retrying` (a parameter of the installation), the
-- service's own log (but for the columns that writing it reads), the rendering of a job's log as text,
-- parts of config.py, cwltiny's copying of files, child processes and main, the generated classes of
-- the front end, and what the start-up scripts do besides running the ExecutionManager.
pub mod Cwltiny
pub mod Prelude
pub mod JobState
pub mod JobStore
pub mod Exception
pub mod FileSystem
pub mod Front
pub mod World
pub mod LocalFiles
pub mod RemoteJobFiles
pub mod RemoteApi
pub mod JobRunner
pub mod Value
pub mod Text
pub mod Cwl
pub mod Config
pub mod JobPlanner
pub mod ExecutionManager
mod Examples
