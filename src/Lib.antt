-- ===== src/Lib.antt =====
-- A verification library for nebula-token: opaque rotating refresh tokens. The program's core is
-- the TypeScript reference implementation, packages/typescript/src/index.ts. A client presents a
-- token `nbl.kid.selector.verifier`; the engine finds the record of the selector in a store, proves
-- the verifier against the record's HMAC under a secret pepper, and exchanges the token for its
-- successor in the same family. A token that was spent already gives a theft away, and costs the
-- whole family its session.
--
-- The files, by the part of the program:
--   Common (Tests, Lists, Options): Boolean tests on native numbers, lists, options, and texts. A
--     JavaScript string is the list of its UTF-16 code units, a buffer the list of its bytes.
--   Codec (Base64Url, Hex, Utf8, Split): what the source uses of Node's codecs: base64url, hex,
--     UTF-8 with the replacement of unpaired surrogates, `Buffer.byteLength`, `String.split`.
--   Token: the constants, `parseToken`, and the text of a token that `#mint` builds. RoundTrip: that
--     each token has one text.
--   Errors: exceptions and rejected promises as values.
--   Digest: `hashVerifier`, `hashDeviceId`, `constantTimeEqualHex`.
--   Config: `NebulaConfig` and the constructor of `NebulaEngine`. Ready: what it guarantees.
--   Store (Rows, Laws, Contract, Family, Invariant, Expiry): `MemoryRefreshTokenStore`. Its `Map` is an
--     association list in the order of insertion; each method is one atomic step, as on Node's one thread.
--     Interface: `RefreshTokenStore`, and the contract of section 4 of SPECIFICATION.md as a record of
--     laws against the memory store; a call may be rejected, with its write applied or not.
--   Task: an `async` method as the sequence of the calls of the store that it awaits; `run` carries
--     one out alone. Schedule: interleavings of several. Alone and Conforming: the same over any store
--     that keeps the contract.
--   Postgres (Sql, Law): packages/typescript/examples/postgres-store.ts, its statements as syntax
--     trees; the client is a parameter, and its law says what SQL documents of the statements, and that
--     a bigint comes back as text, as from the package pg. Mirrors,
--     Tables, Executed and Conforming: that the store keeps the contract. Expiry: its `deleteExpired`.
--   Engine (Results, Mint): `issue`, `refresh`, `revokeToken`, `revokeFamily`, `revokeAllForUser`
--     and the private `#fail`, `#handleReuse`, `#rotate`, `#mint`, `#deviceMatches`,
--     `#activePepper`. Rotation, Outcome and Outcome/Proof hold the specification of `refresh` and
--     its proof; Guarantees, Success, Session, Login and Logout what follows for a caller;
--     Contends, Race and Winner the race of concurrent refreshes; Discipline and Requests all
--     methods together; Lasting a session of any number of refreshes; AnyStore the engine over any
--     store that keeps the contract.
--   Scripts/Regex (Exact, Shape): JavaScript's matcher for the regular expressions that the scripts use.
--   Scripts/Version (Sites, Agree, Dates, Check, Set): scripts/version.mjs, which keeps the
--     version and the release date of all packages in step: its tables, `check` and `set`. The file system is a function
--     from a path to a text, and `JSON.parse` a parameter.
--   Scripts/Actions (Lines, Pinned): scripts/check-actions-pinned.mjs, which looks for mutable references in
--     the workflows: its verdict on a line, and the count over all files.
--   Scripts/Texts, Scripts/Members, Scripts/Occurs: JavaScript's methods of strings and lists, and
--     their laws.
--   Scripts/Runtime: scripts/check-runtime-matrix.mjs, which compares the versions that CI tests with
--     those that the manifests declare. Compare and Order: `cmp`; Table: `RUNTIMES`; Support: the loop
--     and the table in SUPPORT.md; Floors, Single, Sets, Pairs, Covered and Written: what it promises.
--   Scripts/Vectors: scripts/validate-vectors.mjs, the checks on the conformance vectors (Citations,
--     Constants, Scenarios, Check), and scripts/build-traceability.mjs (Trace). Ids, Defined, Cited, Mirrored,
--     Bound and Documented hold what a passing check means, Rows, Traced and Tally what the
--     traceability document says.
--   Scripts/Links (Pages, Resolved): scripts/check-links.mjs, with `node:path`, `node:fs` and
--     `decodeURIComponent` as parameters.
--   Scripts/Examples (Table, RunLine, Compiled): scripts/check-examples.mjs, which finds the command that
--     compiles the examples of each package in what a job of ci.yml runs.
--   Scripts/Licenses (Payload, Manifests, Parsed, Prose; Declared, Granted): scripts/check-licenses.mjs,
--     with the disk, SHA-256, `JSON.parse` and git as parameters.
--   Tests: a concrete engine and session, and the theorems at them.
--
-- Numbers are unbounded naturals: timestamps are whole Unix seconds, as the specification has them.
-- HMAC-SHA-256 is a parameter, a function of the key's and the message's bytes with a result of 32
-- bytes. The clock's reading and the random bytes are arguments of each call; `Draw` holds the two
-- results of `randomBytes` in `#mint`, and a theorem that needs a new selector says so. `now -
-- rotatedAt` stops at 0 here: a negative difference passes the comparison with the grace, which is
-- not negative, in the source as well. A part of a version that is no number is NaN in the source:
-- comparing it gives NaN, which the code takes for 0; here it is `none`, with the same result. Where
-- the source sorts and takes the first element, `lowest` is a least element, which is the first one
-- of a stable sort wherever the comparison is consistent. Every recursion is structural; the
-- repetition of a group in a pattern is bounded by the length of the text, as each round takes a unit.
--
-- Not modelled: the redacted renderings for debuggers, the texts of error messages, the `typeof`
-- tests on arguments that are typed as strings, timing,
-- what the scripts print, the validation against JSON schemas by the package ajv, the other scripts,
-- and the ports to other languages.
pub mod Common
pub mod Codec
pub mod Token
pub mod Errors
pub mod Digest
pub mod Store
pub mod Config
pub mod Task
pub mod Postgres
pub mod Engine
pub mod Scripts
pub mod Tests
