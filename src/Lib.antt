-- ===== src/Lib.antt =====
-- validateur-facturx: a validator and generator of Factur-X electronic invoices, with the exchange
-- of invoices with certified platforms.
--
-- Parts and files. Paths are from the repository's root.
--   Money       packages/facturx/src/money.ts: decimal amounts. Money has the arithmetic, Literal the
--               reader and the printers, Digits the digits of a number; Scaling, Exact, Rounding,
--               Order and RoundTrip hold the proofs.
--   Profiles    packages/facturx/src/profiles.ts: the profiles and the URNs that declare them.
--   Invoice     packages/facturx/src/generate/draft.ts and compute.ts: Draft is what the user typed,
--               Compute derives every total from it; Reading, Grouping, Cents, Tax and Balance hold
--               the proofs.
--   DraftCheck  packages/facturx/src/generate/check-draft.ts: the checks of a draft, with Dates (dates),
--               Iban (account numbers), Header, Party, Lines and Whole for its parts; Coherent, Ready,
--               Calendar, DateOrder, Mod97 and Typing hold the proofs.
--   Xml         packages/facturx/src/generate/xml.ts: the tree of a document and its text;
--               Markup has a reader of tags, attributes and entities, with the proofs.
--   Cii         packages/facturx/src/extract/cii.ts and generate/cii.ts: the typed document. Values walks
--               the value that the XML parser returns, Read reads a document from it, Detect searches
--               for the root's name, Write and Document write a draft; View says what the parser is
--               relied on for; Sections, Amounts, Nodes, IssueDate and Restated hold the proofs.
--   Checks      packages/facturx/src/checks.ts: the arithmetic checks of a document; Vat, Generated,
--               Composed and Suspects hold the proofs.
--   Identifiers packages/facturx/src/identifiers.ts: SIREN, SIRET and French VAT numbers; Luhn and
--               RoundTrip hold the proofs.
--   Archive     apps/api/src/archiving: Store is the interface of artifact-store.ts with what it
--               promises, Filesystem is stores/filesystem.store.ts, Service is archiving.service.ts;
--               WriteOnce and Sealed hold the proofs.
--   Pdp         apps/api/src/pdp: Lifecycle is lifecycle.ts; Store the rows of
--               packages/db/prisma/schema.prisma; Queue (enqueue, claim), Attempt (buildRequest,
--               electronicAddress), Outcome (recordSent, recordFailure, retry) and Drain (attempt,
--               drain) are transmission.service.ts; Sync is pdp-sync.service.ts. Steps, Keys, Once,
--               Leases, Order and Retries hold the proofs.
--   Auth        packages/auth/src: Permissions is permissions.ts, Session is session.ts, Credential is
--               credential-tokens.ts, Password the policy of password.ts, Reset is password-reset.ts;
--               Lifetime, Revocation, Links, Newest and Reset.Ends hold the proofs.
--   RateLimit   apps/web/src/lib/rate-limit.ts: the token bucket of a client; Burst has the proof.
--   Common      what the modules share: tests on numbers, lists, signed integers, a stable sort,
--               JavaScript strings and results that may be an exception.
--
-- How they interact. An `InvoiceDraft` is checked by `check_draft` and computed by `compute_invoice`
-- with the arithmetic of Money; `serialise_cii` writes it as a tree whose text is `render_xml`; a
-- parser, which is a library, turns the text into a value, from which `parse_cii` reads the document
-- that `check_arithmetic` checks. `check_rate_limit` stands before the public validator. An issued
-- invoice is queued by `create`, claimed by a worker with `claim`, sent and settled with `settle`, and
-- its state then follows the statuses that `apply_status` records. A request is made by the user whom
-- `resolve_session` finds.
--
-- Conventions. A string is the list of its UTF-16 code units; a `bigint` is a signed integer of any
-- size; a date is its number of milliseconds; a thrown error is the `err` of a `Result`. A table is
-- the list of its rows, and a transaction is a function from the database to the database. No
-- function needs fuel: every loop of the source is a recursion on a list or on the digits that are
-- left. `\s` and `trim` know every white space of JavaScript; `toLowerCase` and `toUpperCase` know
-- every character that becomes one or more ASCII letters, and keep the others. A function whose
-- result the database or the outside decides (the archive, the platform, SHA-256, the random
-- number, the identifier of a new row, the rows that other workers have locked) takes it as a
-- parameter.
--
-- Interleavings. The rows and the invoices that a writer read earlier are arguments of a step
-- (Pdp.Steps), so that a step can act on a row that another writer has changed since; the theorems on
-- steps hold for every sequence of them. Issuing a link is two steps (Auth.Links), for other requests
-- may write between its two statements.
--
-- Not modelled: the XML parser, PDF files, the Java sidecar and its rule catalogue, the
-- web pages, the mail templates, the HTTP controllers, and the services for issuing and receiving,
-- registration and sign-in.
pub mod Common
pub mod Money
pub mod Invoice
pub mod Profiles
pub mod Xml
pub mod Cii
pub mod Checks
pub mod DraftCheck
pub mod Identifiers
pub mod Archive
pub mod Pdp
pub mod Auth
pub mod RateLimit
