-- ===== src/Lib.antt =====
-- The password manager: its server (backend/src and shared/src), with vaults that several users
-- share, their members and invitations, the rotation of a vault's key, secrets with folders and
-- tags, and the sessions, second factor, backup codes and e-mail verification that guard them; and
-- the part of the browser's client (frontend/src) that holds the keys. The server never decrypts:
-- titles, names and field values are ciphertext envelopes that it only checks. The client derives
-- the keys, holds them in its keyring until it locks, and re-encrypts a vault by calling the
-- server's handlers.
--
-- The database is a value. A handler is a function from the database, the time, the ids that the
-- database client would draw, the user of the session and the body to a result: the new database, or
-- the failure that it throws. A transaction that fails changes nothing, so a failure carries no
-- database. Where a handler reads first and writes in a later transaction, and simultaneous requests
-- matter, it is two functions, and a theorem composes the second ones in any order.
--
--   Base            numbers, tests, rows of a table and their lemmas
--   Errors          shared/src/errors.ts, backend/src/middleware/errors.ts
--   Envelope        shared/src/envelope.ts, its codec in Envelope/Base64.antt, its key wraps in
--                   Envelope/KeyWrap.antt
--   Json            what the handlers do to text and numbers of a body
--   Store, Tables   backend/src/db/schema.prisma and the migrations: rows, constraints, cascades
--   Vaults          backend/src/modules/vaults: Authz (authz.ts), Lifecycle and Members
--                   (vaults.routes.ts, revoke.ts), Invitations (invitation.service.ts,
--                   invitation.expiry.ts), Sharing (sharing.routes.ts), Rotation
--                   (rotation.routes.ts), Reads (the routes that read one vault), Export
--                   (backend/src/modules/backup/export.route.ts); Owners and Deletion hold theorems
--                   about them
--   Secrets         backend/src/modules/secrets/secrets.routes.ts
--   Organise        backend/src/modules/secrets/organise.routes.ts
--   Templates       backend/src/modules/templates/templates.routes.ts
--   Requests        the requests of the modules above and what the server makes of a history of them
--   Auth            backend/src/modules/auth: Session (session.ts), Guard
--                   (backend/src/middleware/session.ts), BackupCodes (backup-codes.ts), Totp
--                   (totp.routes.ts), Login and Registration (auth.routes.ts), Verification
--                   (verify.routes.ts), Account (account.routes.ts)
--   Client          frontend/src: Keyring (vault/keyring.ts), AutoLock (vault/auto-lock.ts;
--                   Events.antt has the events of a tab), Crypto
--                   (crypto/envelope.ts, kdf.ts, user-key.ts, vault-key.ts, master-key.ts), Session
--                   (vault/session.ts, crypto/enrolment.ts, crypto/password-strength.ts; SignUp.antt
--                   composes it with Auth/Registration.antt and Auth/Login.antt), Rotation
--                   (vault/rotation-worker.ts over the handlers of Vaults/Rotation.antt), Search
--                   (search/index.ts)
--   Tests           a small database on which each theorem is applied
--
-- A function keeps the name of the function that it models, in the spelling of this language
-- (`requireMembership` is `require_membership`), and a route is named for what it does. Ids, times
-- and generations are natural numbers; text is a list of code units and binary data a list of bytes.
-- Most loops of the code walk a list, and each of those functions recurs on that list. Two loops run
-- on a bound: `send_secrets` sends batches of 50 and is given as many rounds as there are secrets,
-- and `hkdf_rounds` makes blocks of 32 bytes and is given as many rounds as bytes are asked for; a
-- theorem about each shows that the bound is enough.
--
-- SHA-256 and the decoding of an authentication hash belong to the runtime: each function that uses
-- one takes it as an argument, and no theorem assumes anything of it. Random ids, tokens and codes
-- and the clock are arguments too, and so are the score of zxcvbn and the order of ids by locale. The
-- client's primitives (AES-GCM, RSA-OAEP, HMAC, SHA-256, Argon2id, PBKDF2 and the text encoder) are
-- the fields of `WebCrypto`. What the theorems assume of them are the records `IsCipher` and
-- `IsPlatform`, which say that what is sealed opens again and how long an output is, and for what a
-- generator draws `AreDrawn`; Tests/Platform.antt has functions that satisfy them.
--
-- The histories of Requests/Visits.antt have registrations and the routes of vaults, members,
-- invitations, rotations, secrets, folders, tags and the export; the deletion of an account is
-- modelled in Auth/Account.antt and is not in these histories.
--
-- Not modelled: of the server, the import, routes that only read and are not scoped to one vault,
-- mails and the sign-in history, and rate limits; of the client, the React components,
-- the offline cache and its unlock, the client's one-time codes, the service worker and the HTTP
-- client. The rotation worker is modelled without requests of others between its own. Lower case is
-- that of ASCII.
pub mod Base
pub mod Errors
pub mod Envelope
pub mod Json
pub mod Store
pub mod Tables
pub mod Vaults
pub mod Secrets
pub mod Organise
pub mod Requests
pub mod Auth
pub mod Templates
pub mod Tests
pub mod Client
