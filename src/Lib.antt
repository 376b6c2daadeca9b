-- ===== src/Lib.antt =====
-- The backend of a content planner: companies sign up and are approved, set up their brands and
-- products, and have briefs turned into creative concepts, which people review, schedule and publish.
-- It is a FastAPI application over SQLAlchemy; a request handler is a method of a service with a
-- database session, and paid generation runs in arq workers.
--
-- How the program is modelled
--   Model/Accounts, Model/Content   the rows of app/models/, a record each
--   Model/Tables                    the database, a list of rows per table; mail and queued tasks
--   Model/Enums                     app/models/enums.py
--   Model/Session                   a request: the uncommitted and the committed database, what was
--                                   mailed and queued, and Python's exceptions as errors
--                                   (app/core/exceptions.py, app/db/session.py, app/modules/audit)
--   Model/Queries                   look-ups by key that several services make
-- A handler is an `Action`: a function from a session to a result and a session, written as a do
-- block in the order of the source. A query without an order, or by descending time of creation,
-- reads the list of rows, the newest first. A write to a loaded object is an update of the row with
-- its primary key. A request starts from `open_session`, and what it does not commit is lost.
--
-- The parts
--   Core/Access         app/core/deps.py and app/core/security.py: who is let through, and with which
--                       status a request is refused. Grants holds the specification.
--   Core/RateLimiter    app/core/rate_limit.py: the sliding window; Window holds what is proved of it.
--   Auth/Tokens         refresh tokens and their families (app/modules/auth/service.py and
--                       token_issuance.py): `refresh`, `logout`, `logout_all`, `change_password`.
--                       Families, Requests and Revocation hold what is proved of them.
--   Auth/Login          `login` with the gates in front of it; Gate says whom they let in.
--   Auth/Codes          `verify_email`, `resend_verification`, `forgot_password`, `verify_reset_otp`
--                       and `reset_password`; Newest, Redeem and Attempts hold what is proved of
--                       them.
--   Companies/Onboarding   app/modules/companies/onboarding.py
--   Companies/Admin     the decisions of a super admin on a company (app/modules/admin/service.py);
--                       Recipients is about their mail, and Status gives the status machine.
--   Companies/Provisioning, Companies/Members   `CompanyMemberService` of
--                       app/modules/companies/service.py with the accounts of provisioning.py. Admins
--                       is about the admins of a company, and Gaps about what the guards let pass.
--   Companies/Setup     `CompanyService` of the same file; Progress is about the onboarding it moves.
--   Core/Slugs          app/core/slugs.py, and the loop of the services that numbers a slug. Form,
--                       Numbers, Search and Unique hold what is proved of them.
--   Products/Catalogue  creation, change and deletion of products (app/modules/products/service.py);
--                       Uniqueness and Deletion hold what is proved of them.
--   Products/Team       the members of products in the same service; Rows and Requests hold what is
--                       proved of them.
--   Products/SubProducts   app/modules/sub_products/service.py; Batches is about several names at once
--   Products/SocialAccounts   accounts entered by hand (app/modules/social_accounts/service.py), with Again
--                       about removed ones; Returns is about `safe_oauth_return_to` (state.py there).
--   Creatives/Lifecycle    the content workflow of app/modules/creatives/service.py. Policy is about
--                       the approval policies, Requests names the requests, Steps gives the state
--                       machine as a relation that every request refines, and Safety is about
--                       sequences of requests.
--   Creatives/Endpoints    the routes of app/modules/creatives/router.py that approve content
--   Creatives/Brief     `Brief` of app/modules/creatives/domain.py with its validators
--   Creatives/Pricing   app/modules/creatives/pricing.py: the pre-flight estimate
--   Creatives/BrandProfile   app/modules/brand_profiles/resolution.py
--   Creatives/Generation   `request_generation` and `render_assets` of the same service. Outcome, Caps,
--                       Stranded and Render hold what is proved of them.
--   Creatives/Compliance   app/modules/creatives/compliance.py and pipeline/ideate.py: the gate and
--                       `run_ideation`; Checked and Disclaimer hold what is proved of them.
--   Creatives/Worker    the two tasks of app/modules/creatives/worker.py: Ideation and Rendering are the
--                       code; Quiet, Endings, Stored and Outcome hold what is proved of them.
--   Creatives/PostingTime  app/modules/creatives/posting_time.py
--   Base                helpers: Boolean tests, lists, tables. Samples is a small database, on which
--                       the Tests modules apply the theorems.
-- The parts meet in the session: a route runs a check of Core/Access and then an operation of the
-- service on what the check has left; `verify_email` advances the companies of the user by
-- Companies/Onboarding; `request_generation` asks Creatives/BrandProfile for the profile and
-- Creatives/Pricing for the estimate, and leaves a task for the worker, which `run_task` runs on the
-- database.
--
-- Choices
--   Ids are only compared, so they are numbers, and times are numbers of microseconds. Money is
--   counted in millionths of a rupee, in which every rate of the default cost table is whole; the
--   rounding of floats is left out, and the rounding of a `Numeric(10, 2)` column is a parameter.
--   PyJWT, Argon2, SHA-256, the random generators, `str.lower`, the clock and arq are fields of an
--   environment or arguments; arq may raise, since Redis may be away. The address and the agent of a client, the messages of errors and
--   the metadata of audit entries are left out. Two definitions run on fuel, and every other loop
--   follows a list: the search for a slug has one round more than there are rows, and a theorem says
--   that it ends; a number n is written with at most n + 1 digits, which its value shows to be enough.
--   A column's unique constraint is modelled where a service can break it.
--
-- Not modelled
--   Rows of concepts are read back without the errors of their validation, since only the worker
--   writes them.
--   For the worker the pipeline is a parameter, since a task may be cancelled while it waits for it;
--   a cancellation while it awaits the database is left out. The language model is a parameter of
--   ideation that may answer each call differently, and so are its prompts. Rendering is image and
--   video processing by libraries and providers. The OAuth connection of
--   social accounts and the listing endpoints are left out. Providers, storage, e-mail
--   delivery and brand analysis are network and file input and output.
pub mod Base
pub mod Model
pub mod Core
pub mod Creatives
pub mod Auth
pub mod Companies
pub mod Products
pub mod Samples
