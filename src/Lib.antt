-- ===== src/Lib.antt =====
-- Verification of the allocation-key simulation service.
--
-- The service simulates how the production of an energy community is shared out among its consumers
-- by an allocation key, a list of iterations. An API stores a PENDING row (and an uploaded file) and
-- publishes a message; a worker takes the message, reads the key and the consumption (the file, or
-- the meter readings of the CRM), runs the solver, and stores the result.
--
-- Base: lists, options, tests and text over the native natural numbers, and results with exceptions.
-- A text is the list of its code points.
--
-- Simulation (simulation/): Inputs is inputs.py and key_mapping.py, Outcome is result.py, Series the
-- numpy operations and Compute is compute.py, whose run_simulation keeps its name. The arithmetic
-- of floats is a parameter, the record Arith of Number. Theorems on sums take IsExact, the laws of
-- exact arithmetic, as a hypothesis: floats obey them up to rounding. Number/Integers is an
-- instance. A matrix is the list of its rows with their width, and the rows of the solver's matrices
-- are kept as the consumers' results that the code cuts from them. Compute/Chained tells a run by
-- the figures of its results alone, without the solver's intermediate arrays.
--
-- Shared (shared/): Models is const.py and models/local_models.py, Metering the aggregates of
-- crm_meter_repository.py, ProblemSize is problem_size.py, Preflight is crm_preflight.py, Loading is
-- data_loading.py and crm_timeseries.py, Errors is custom_errors.py. pandas is the record Pandas;
-- that a column has a cell for each row of its frame is the hypothesis HasHeight. As in pandas, a
-- label selects every column of that label, so where one stands twice the converter gives more rows
-- than names. Loading/Converted is about frames where each label asked for stands once (LabelsOne),
-- Loading/Repeated about the others.
--
-- Worker (worker/): World is what a handler reads and changes, the rows and results of the local
-- database, the stored objects, the temporary files, the audit log, the hints, and what the broker
-- was told. Action is a step on it that returns or raises; what was changed before a raise stays.
-- Outside is everything that the worker calls (databases, object store, broker, solver processes,
-- disk), with the fault that each call raises at each moment, so a theorem about any Outside holds
-- under any faults. Persistence is persistence.py: a claim that is not committed is rolled back, so
-- the row is written at the commit. Timeseries is timeseries.py. Json is Event.decode of
-- core/queue/helper.py. Sources is _load_from_file and _load_from_crm of dispatcher.py, and
-- Process, Solving and Dispatcher the rest of it: _process up to the solve, the solve and what follows
-- it, and _handle_message.
-- Startup is _connect_nats_with_retry of main.py, and Pool its count of the CPUs and _SolverPool.submit.
-- Action/Keeps, Action/Leads and Action/Ends are rules for reasoning on steps: what holds before and
-- after, or by how a step ends. Persistence/Transitions has the commits as a relation.
--
-- Api (api/simulation/, and of core/ what stands in front of it): Service, Service/Requests and
-- Service/Stored are service.py and the routes that start and delete runs, as steps on the same world as
-- the worker's, with with_default_error.py and the CRM session that a request leaves uncommitted. Its
-- calls are the worker's Outside and the record Front: the publish and whether the broker stored the
-- message of one that raised, uuid4, and the database's next id. Repository is repository.py with
-- with_community.py, and the record Sql what PostgreSQL does; Mappers is mappers.py with
-- schemas.py, where Python's stable sort is an insertion sort.
-- Service/Delivered follows a run from the request to the worker's handler.
-- Service/Oversized is about a file over the cap.
-- Timeseries/Pieces, Timeseries/Response and Timeseries/Sampling are _pieces, as_api_response and
-- read_iterations of timeseries_reader.py (json and math.isfinite are the record Decoder), and
-- Pieces/Reference reads the same document byte by byte. Upload is upload_shape.py with
-- _read_within_cap; csv, zipfile and the expression for a worksheet's dimension are the record Formats.
-- Limits is core/middleware/request_limits.py, and no theorem is about it. Security is core/security/gateway_auth.py,
-- user_context.py and dependencies.py with core/middleware/set_auth_context.py, behind the regular
-- expression that splits the header.
--
-- Core (core/): Queue is the rest of core/queue/helper.py, a consumer's configuration being the list
-- of its fields and the broker a record that may refuse a change. Realtime is core/realtime
-- (channels.py, envelope.py, and emit of bus.py), over the JSON of Worker/Json; the publishes that
-- fail are a parameter.
--
-- Loops are recursions on lists, or on the attempts that are left of ten. The tokenizer takes the
-- length of a chunk as its fuel, as every turn takes a byte at least. Ids, timestamps, counts and
-- numbers of deliveries are natural numbers; Python's integers do not overflow. A negative simulation
-- id names no row.
--
-- Not modelled: of the API the validation of a chart's iterations by pydantic, the reading of a
-- workbook's parts (upload_shape.py), get_simulation with its eager loading, and the routes that only
-- pass values on; core/security/community_scope.py and the subscription's query; the signals, the
-- heartbeat and the queue's poll of worker/main.py; and the clients of NATS, MinIO, Redis and
-- PostgreSQL (core/queue/init.py, core/storage, core/database), whose calls are steps of World.
-- FastAPI's wiring, configuration, logs, metrics and translations (main.py, core) are input and
-- output only. The handlers of one worker are run one after the other, and a request by itself; that
-- two of them interleave is not modelled, nor are the semaphore, log lines and durations.
pub mod Base
pub mod Simulation
pub mod Shared
pub mod Worker
pub mod Api
pub mod Core
