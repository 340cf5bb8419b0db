-- ===== src/Lib.antt =====
-- TaskMesh, an asynchronous job-processing system (FastAPI, SQLAlchemy, Celery): its task services as
-- functions on a database, and what holds of any interleaving of them.
--
-- How the parts interact. An API request submits a task: a QUEUED row is committed, then a message with
-- its UUID is published to the queue of its priority. A worker that gets the message claims the task
-- (QUEUED to RUNNING, with a lease and a new attempt), runs the job and records how it went. A periodic
-- pass reclaims RUNNING tasks whose lease has expired. All of them meet only in the database, through
-- transactions whose UPDATE is guarded by the status it expects.
--
-- Which file models what:
--   Model             app/models/task.py, app/models/task_execution_attempt.py: the two tables as row
--                     types (Task, TaskExecutionAttempt), the enumerations; Model/Json the payload,
--                     Model/Validity the invariant of a row
--   Text              the operations on str that the code uses
--   Database          what SQLAlchemy and the database document of the statements used, as an
--                     interface; Database/Rows their effect on rows, Database/Memory a database that
--                     meets the interface, Database/Healthy databases on which COMMIT succeeds
--   Errors            the exceptions of app/services/task_lifecycle.py, and session.commit()
--   Execution         app/services/execution.py: handle_echo, execute_job
--   Lifecycle         app/services/task_lifecycle.py: Retry (retry_countdown, _safe_error_message,
--                     _parse_task_id), Claim (_claim_task), Complete (_complete_task), Failure
--                     (_finalize_failure), Process (process_task); Budget and Drain follow a task that
--                     keeps failing
--   Dispatcher        app/services/dispatcher.py: queue_for_priority, CeleryTaskDispatcher.dispatch
--   Recovery          app/services/recovery.py: _reclaim_one, recover_stale_tasks, count_stale_running
--   Tasks             app/services/tasks.py: create_task, get_task, requeue_dead_letter_task;
--                     Tasks/Listing list_tasks; Tasks/Body app/schemas/task.py: how a submission is
--                     validated, and the bodies of the answers
--   Api               app/api/tasks.py, app/api/recovery.py: the endpoints with their status codes;
--                     Api/Submission a submission from its JSON on, Api/Summary
--                     app/api/monitoring.py
--   App               app/main.py and the decorators of app/api: App/Routes the methods and paths, and
--                     what FastAPI does with them as an interface that App/Matching meets; App a
--                     request and its answer, App/Laws what a request may do
--   Monitoring        app/services/monitoring.py, app/schemas/monitoring.py: the queue monitor,
--                     _query_task_metrics, build_monitoring_summary; Monitoring/Inspection the
--                     worker monitor
--   Workers           app/workers/tasks.py: execute_task, recover_stale_tasks_task;
--                     Workers/Config app/workers/celery_app.py
--   Delivery          messages between the broker, the workers and the publishers, with workers that
--                     die at any moment; Delivery/Covered, Delivery/Progress and Delivery/Completion
--                     what becomes of a task, Delivery/History and Delivery/Lifecycle what becomes of
--                     the database
--   Schema            the vocabulary of a database schema, and the operations of Alembic as an interface
--   Migrations        migrations/versions: both migrations, up and down; Migrations/Models the schema
--                     that app/models declares, by the naming convention of app/db/base.py;
--                     Migrations/Environment migrations/env.py
--   LoadTest          scripts/load_test.py: its arguments, a burst of submissions, and the report
--   Settings          app/core/config.py: the settings and their defaults
--   Session           app/db/session.py: the engine and the sessions
--   Logging           app/core/logging.py: configure_logging
--   System            the services together: Reach is any interleaving of their transactions, Trace
--                     the abstract machine that they implement, Diagram the task lifecycle of
--                     README.md, Services the calls that are more than one transaction
--   Base              what all of these share; Base/Sorting is Python's sorted
--   Tests             runs on small inputs
--
-- State and time. A function that opens a session takes the database's state (Db) and gives back its
-- result, or the exception that it raises, with the next state; a rolled-back transaction gives back the
-- state that it began with. The clock, fresh UUIDs and the settings are arguments. A moment is a number
-- of microseconds, a UUID its number, a text the list of its code points; a lease in seconds and the
-- retry counts are natural numbers, as the CHECK constraints say. Where a transaction reads in one
-- statement and writes in a later one, what other sessions commit in between is an argument (`between`),
-- and process_task takes what they do while the job runs. The executor of a job, the dispatcher, the
-- broker and the parser of UUIDs are parameters. A COMMIT may fail, and then raises database_error; a
-- lost connection or an integrity error shows in no other place.
--
-- Loops are recursions on lists; no fuel is used. Drain counts deliveries: a task with n retries left
-- gets n + 1.
--
-- Messages. In Delivery a message stands for the task that it names. The steps are the transactions of
-- the services, cut where a process can die: a claim, a failure and a publication are steps of their
-- own. A failure and a reclaim are cut once more, between the SELECT and the UPDATE: what was read is
-- kept by the worker or by the recovery pass, and any steps may come before it is used. A worker goes on
-- by what execute_job gives for the row that it claimed. It holds a message until it is acknowledged; a
-- killed worker's message goes back to its queue when the configuration says so. That Redis keeps the
-- messages that it was given is assumed.
--
-- Requests. How FastAPI finds a route is a parameter, with the condition that what it finds is one of
-- the routes, with their method; how it converts a path and reads a query or a body is given with each
-- request.
--
-- Schemas. An operation of Alembic takes a schema to the next one; Schema/Alembic states where a
-- database is sure to accept it and what it then does, and leaves open what happens elsewhere.
--
-- Load test. Python's floats are an interface, LoadTest/Arithmetic, without laws: rounding, infinities and
-- NaN are those of whatever implements it. Latencies are taken to be ordered by `<`. A 201 answer carries
-- an id.
--
-- Alembic's configuration is a ConfigParser of Python's standard library; what a reference "%(name)s" in
-- it stands for is a parameter.
--
-- Not modelled: the messages that are logged; how FastAPI and Pydantic parse requests, but for the
-- limits of a listing and the fields of a submission; the static files, and the dashboard's code; the
-- environment's settings, the setup of the libraries. In the monitoring summary a failing statement is
-- an argument (`reachable`), and so are the states of the database that its statements see.
pub mod Api
pub mod App
pub mod Base
pub mod Text
pub mod Model
pub mod Database
pub mod Execution
pub mod Settings
pub mod Session
pub mod Logging
pub mod Errors
pub mod Lifecycle
pub mod Dispatcher
pub mod Recovery
pub mod Tasks
pub mod System
pub mod Workers
pub mod Delivery
pub mod Schema
pub mod Migrations
pub mod LoadTest
pub mod Monitoring
mod Tests
