-- ===== src/Lib.antt =====
-- The Daily Scheduler: a Django application, scheduler/, that has two halves. The first is a task
-- queue on Redis or Valkey: jobs are created, wait in a queue, are run by workers and end with a
-- result. The second is a personal planner: tasks of the day with breaks, subtasks, prayers and
-- projects, and statistics over them. The halves share a package and a site, and no state.
--
-- The queue, under Jobs. It takes the broker as a parameter, the record Broker of
-- Jobs/Broker.antt, whose laws are what the broker's commands are documented to do;
-- Jobs/Memory.antt holds one in the lists of Jobs/Store.antt.
--   Jobs/Model.antt: the data of scheduler/redis_models/job.py and result.py and the settings of
--     scheduler/types/settings_types.py.
--   Jobs/Job.antt: the methods of JobModel that change the broker, and Result.create; what they
--     change is under Jobs/Job/Effects.antt.
--   Jobs/Queue.antt: the class Queue of scheduler/helpers/queues/queue_logic.py, with
--     queue_perform_job; a method returns the new state of the broker, an exception is a value of
--     Result or Outcome, and the functions that jobs name are the parameter UserCode. Removal,
--     Effects, Order and Sync under Jobs/Queue state what single operations do; Consistency,
--     Keeping, Creation and Lifecycle the invariant of a queue and the steps that keep it.
--   Jobs/Registries.antt: the registries of scheduler/redis_models/registry, and
--     Queue.dequeue_any, by recursion on a number of rounds, of which one is proved enough.
--     Compact, Pop, Dequeue and Empty under it say what they take and leave.
--   Jobs/Cleaning.antt: Queue.clean_registries; Abandoned under it is about the jobs that it
--     takes.
--
-- The models that the broker keeps as hashes, under Stored: scheduler/redis_models/base.py, with
-- the broker's hashes and sets as the parameter Hashes of Stored/Hashes.antt and the texts of
-- numbers and moments as the parameter Formats of Stored/Values.antt. Stored/Model.antt holds
-- HashModel with its changed fields; Sync and History relate a model and its hash, and Names is
-- about the set of all names. Workers holds save, delete and cleanup of WorkerModel, of
-- scheduler/redis_models/worker.py, with the sets of the queues, and Members and Leaving under it
-- say what the sets hold.
--
-- The scheduled tasks, under Tasks: scheduler/models/task.py. Model holds the task, its checks
-- and its times; Rows and Saving its table, its scheduling and the callbacks of its jobs, through
-- create_and_enqueue_job and delete_job of the queue. Times, Ready, Settled, Scheduling and
-- Callbacks hold the proofs. Running holds get_scheduled_task, and the rescheduling of all tasks
-- by the worker's scheduler. croniter, whose get_next may find no date, the import of callables
-- and the settings are the parameter Environment.
--
-- The worker, under Worker: scheduler/worker/worker.py and scheduler.py. Naming holds
-- _calc_worker_name, by recursion on as many rounds as there are names and one more, which is
-- proved enough, with get_queues and create_worker; Rotation and Turns reorder_queues; Perform,
-- Outcome and Monitor the performing of a job, through the queue's operations, and its counts;
-- Heartbeat get_heartbeat_ttl; Scheduler and Due the moving of due jobs; Waiting the wait of a
-- worker for a job, where its rounds and what comes from outside are lists, and for the end of a
-- suspension, with refresh, the heartbeat and the maintenance, and Lost under it what becomes of
-- commands meanwhile; Loop the loop of work, over a list of its turns, for a worker that performs
-- its jobs in its own process, and Answers and Burst under it its end in burst mode; Commands the
-- commands to stop a job, to suspend and to resume, of scheduler/worker/commands, and Stopping
-- under it when a job is stopped; Locks and Exclusion the locks of
-- scheduler/redis_models/lock.py, over the parameter Keys.
--
-- The planner, under Planner. It takes the tables of the database as parameters, the record Table
-- of Orm.antt, and their sorted queries, the record OrderBy; Orm/Memory.antt holds both in a
-- list, and Orm/Found.antt the counts after a change of one row.
--   Planner/Model.antt: the models of scheduler/models/personal_task.py.
--   Planner/Breaks.antt: auto_insert_breaks of scheduler/views/personal_task_views.py.
--   Planner/Forms.antt: PersonalTaskForm of scheduler/forms.py, and create_personal_task of the
--     same views.
--   Planner/Editing.antt: edit_personal_task, delete_personal_task and delete_subtask of the same
--     views; Kept and Deleted under it are about what they leave.
--   Planner/Timeline.antt: task_data_view and the lists of tasks and subtasks of the same views,
--     with Python's sort from Base/Sorting.antt; Ordered under it is about their order.
--   Planner/Subtasks.antt: create_subtask, toggle_subtask_completion and toggle_task_completion
--     of the same views, and the performance rating of a task; Ratings under it is about what they
--     do to the ratings and the order.
--   Planner/Calendar.antt: the grid of calendar_view of the same views.
--   Planner/Copying.antt: copy_tasks_from_yesterday of the same views; Counts under it is about
--     the rows that it adds.
--   Planner/Prayers.antt: toggle_prayer_completion of scheduler/views/prayer_views.py; Status
--     under it is about the rows that it leaves. Times under it holds create_prayer, update_prayer
--     and delete_prayer, Daily get_daily_prayer_completions and get_prayer_stats of the same views;
--     how Django reads a text as a time is a parameter.
--   Planner/Analytics.antt: the statistics of scheduler/views/analytics_views.py; Sums under it
--     relates days and ranges. Dates under it holds get_date_range, over the months of Python's
--     calendar as a parameter, Dashboard analytics_dashboard, Charts the data of the charts, and
--     Alerts is about the last two.
--   Planner/Projects.antt: generate_schedule of scheduler/views/project_views.py; Dates, Runs and
--     Weeks under it are about its dates, its rows and the length of its loop; Editing holds
--     create_project_task, delete_project_task and create_schedule of the same views.
--
-- A moment is a whole number of seconds for the queue and of microseconds since midnight for a
-- time of the planner; a date is its ordinal. A percentage is the pair of counts that it is
-- computed from. The loops are recursion on the number of rounds left (the weeks of a schedule,
-- the days of a range), so no fuel can run out; the two loops with fuel are named above. Moments
-- and durations have no upper bound: the overflow of Python's dates is left out.
--
-- A hash under a job's name is taken to be one that the code can read back, and a job that ends
-- is written as the worker has it in memory, where the code writes the changed fields only. No
-- time passes between two commands of one operation on the broker, so that keys do not expire and
-- no worker comes between. Requests are taken as parsed, and their answers only where they carry
-- counts. Not modelled: the worker's processes, signals and teardown, the loop of its scheduler,
-- the lists and fractions among the values of a stored model, the connections to brokers, the
-- admin site, the templates, the management commands, the migrations, and the parts of the queue
-- and the planner that no file above names.
pub mod Base
pub mod Jobs
pub mod Orm
pub mod Planner
pub mod Stored
pub mod Tasks
pub mod Worker
