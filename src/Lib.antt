-- ===== src/Lib.antt =====
-- Verification of the TypeScript code of TrackFlow, a logistics platform: the shared utilities
-- under src/ and the library of the back office under uis/backoffice/. Python services, which the
-- interfaces see through HTTP only, and the React components are not modelled.
--
-- The parts and the files that model them (paths are from the repository's root):
-- - Common: numbers, lists, texts as lists of UTF-16 code units with trim, startsWith, includes and
--   join, decoded JSON, the numbers of the platform with the laws of comparison, and the keys that
--   plain objects inherit.
-- - Models: the records of src/types/models.ts.
-- - Telemetry: the queue of uis/backoffice/services/telemetry-service.ts. Defs has the state, and
--   Service one function for each method; `await` splits `flush` into what happens before it
--   (send_next) and after it (resume), so that calls come between. `step` makes one call, one
--   answer or one hiding of the page an action, and `run` a sequence of them. Pattern is
--   EVENT_TYPE_PATTERN and Retry is sendWithRetry, over the answers to its requests. Bounds,
--   Kept, History, Hide, Drops and Reports prove what the queue keeps, in which order events leave
--   it, what is lost when the page is hidden, what is counted as dropped and how it is reported.
-- - Search: src/utils/search.ts. Linear has the linear searches and the searches by id; Binary has
--   the two binary searches, which share their loop.
-- - Transformation: src/utils/transformation.ts. Reports has totals, extremes and the report,
--   Counts has countByCategory, whose accumulator inherits properties.
-- - Collections: src/utils/collections.ts without its sorting. Filters has the five filters, Search
--   the combined search and its four wrappers, Criteria what they select.
-- - Validations: src/utils/validations.ts. Rules has the field rules, Records the validation of
--   each record, Laws when a rule passes, Accepts which orders and returns are valid.
-- - Incidents: uis/backoffice/lib/incident.ts, types/incident.ts, the change of
--   a status in components/incidents/IncidentStatusControl.tsx, and the query of
--   services/incidents-service.ts. Vocabulary has the value lists, guards and labels, Lifecycle
--   the changes of status, Statuses a change from inside the list,
--   Form the form and its payload, Payloads and Normalised the reading of
--   answers, Counts the summary's counts, Filters the filters of the list and its address.
-- - Accounts: uis/backoffice/lib/auth.ts and types/auth.ts, which uis/website repeats. Email has
--   the pattern of an email, Forms the forms and bodies, Accepts when a form has no error, Payloads
--   and Users the reading of answers, Edits the profile form.
-- - Session: uis/backoffice/lib/auth-storage.ts. Token has localStorage, which may refuse each of
--   its calls, and the copy in memory; Paths has the paths around signing in.
-- - Routes: uis/backoffice/lib/telemetry-routes.ts. Classes has the classes of widths, methods and
--   statuses, Fingerprint the hash of an error, Templates the templates of routes and sections,
--   Hidden and Shapes what a template
--   looks like.
-- - Api: uis/backoffice/lib/api-client.ts and lib/friendly-error.ts, with toFieldErrors of lib/auth.ts.
--   Bodies reads the bodies of errors, Leaks has the patterns of messages that are not for a
--   reader, Friendly is describeError, Responses the headers, addresses and answers, Requests the
--   two kinds of request over the state of Session and Telemetry together, Checked a request whose
--   answer is checked before use, Placed the messages of a form. Safe, Fields, Sessions, Sent and
--   Recorded prove which messages are shown, under which fields, when a session ends, what is sent
--   and what is recorded.
-- - Accounts.Service: uis/backoffice/services/auth-service.ts over Api; SignIn and SignOut prove
--   which token is there after it.
-- - Flow: uis/backoffice/hooks/useFlowTelemetry.ts. Defs has the state and the events, Hook one
--   function for each callback and effect and the steps of a form, Lifecycle, Ends and Attempts
--   what their log says.
-- - Inventory: uis/backoffice/lib/inventory.ts and lib/inventory-telemetry.ts. Stock has the levels
--   and the events of an order, Guards what is accepted as an answer, Calls the requests, Errors
--   describeInventoryError.
-- - Suppliers: uis/backoffice/lib/supplier.ts and types/supplier.ts. Records has the types and
--   labels, Form the form and its payload, Answers the reading of answers, Echo that they fit.
-- - Candidates: uis/website/lib/candidate.ts. Records reads and writes records whose keys vary,
--   Updates says what a write changes, Shown that a form is shown as it was filled in.
-- - Reporting: uis/backoffice/lib/reporting.ts. Checks has the response checks, Calls the requests
--   and the error texts, Figures the figures of a week, Totals that grouping keeps them.
-- Api uses Session and Telemetry; Inventory and Reporting use Api; Suppliers uses the pattern of
-- Accounts; Flow stands alone.
-- The runs on concrete values stand in the module Tests of each part.
--
-- How the code is read: a function that may throw returns an option whose `none` is the throw; a
-- union of string literals is the text that it is at run time; a Date is its time value. What the
-- platform does is a parameter: numbers (Numbers, with OrderLaws for comparison), toLowerCase,
-- comparators, number formats, fetch's answers, the beacon, the clock, random ids, URL and URLSearchParams.
--
-- Bounds: the binary search's loop has as much fuel as the list has elements, and one more, and is
-- shown to end within it; the loop over beacons has one round for each queued event, and each round
-- takes at least one; a batch is sent at most four times, which are four recursive calls; a
-- 32-bit number is written with fuel for eight digits, which is shown to be enough.
--
-- A request is asynchronous: what other code does to the shared state while it waits is a function
-- that the request takes, and a theorem that needs it to leave something alone says so.
--
-- Not modelled: sorting (it uses localeCompare), the formats of dates and amounts and the weeks of
-- the report (the platform's dates), the events of refused orders and of stock readings, the
-- services that only put requests together, the website's other libraries, the rest of the
-- components and pages, which load lists, keep forms and draw them.
pub mod Common
pub mod Telemetry
pub mod Models
pub mod Search
pub mod Transformation
pub mod Collections
pub mod Validations
pub mod Flow
pub mod Inventory
pub mod Suppliers
pub mod Candidates
pub mod Reporting
pub mod Incidents
pub mod Accounts
pub mod Session
pub mod Routes
pub mod Api
