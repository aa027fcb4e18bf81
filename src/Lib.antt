-- ===== src/Lib.antt =====
-- secd keeps a vault of secrets that only its clients can read. The crate crates/secd-core holds what
-- clients and server share (names, sealing, key wrapping, provider schemas); the crate
-- crates/secd-web is the server, which stores ciphertexts, sessions and an audit chain in one sqlite
-- database and pairs devices; the command line and the terminal screens under src are its clients.
--
-- Parts and files:
--   Base            bytes, lists, maps, results and JSON values that all parts share. A text is the
--                   list of its UTF-8 bytes, and numbers are natural numbers; arithmetic that wraps or
--                   saturates is written out where it stands.
--   Core/Name       crates/secd-core/src/name.rs: check_name. Core/Name/Grammar is the language that
--                   the source documents, as a data type.
--   Core/Hex        to_hex, from_hex and hex_val of crates/secd-core/src/wrap.rs.
--   Core/Aead       crates/secd-core/src/aead.rs: seal and open over any cipher.
--   Core/Wrap       crates/secd-core/src/wrap.rs: wrapping the data key under a password or a passkey.
--   Core/Redact     crates/secd-core/src/redact.rs: values are taken out of a text.
--   Core/Provider   crates/secd-core/src/provider.rs: the built-in schemas, candidates, infer and
--                   build_payload.
--   Server/Db       crates/secd-web/src/db.rs: the tables, one statement, and immediate, with
--                   what a transaction leaves in Db/Undone.
--   Server/Sha256   sha256 of crates/secd-web/src/audit.rs.
--   Server/Audit    crates/secd-web/src/audit.rs: append_on, record_names and verify_rows.
--   Server/Sessions crates/secd-web/src/sessions.rs: every operation of SessionStore.
--   Server/Decode   decode_bytes of crates/secd-web/src/auth.rs.
--   Server/Auth     crates/secd-web/src/auth.rs: normalize_email, parse_client_wrap, allow_rate and
--                   the handles of Pending.
--   Server/Device   crates/secd-web/src/device.rs: the handlers of device pairing. Device/Change is what
--                   they may do to the pairing requests, as a relation.
--   Server/Vault    crates/secd-web/src/vault.rs: the store of entries, versions and wraps, and its
--                   handlers.
--   Server/Headers  the replies of crates/secd-web/src/headers.rs.
--   Client/Form     src/tui/form.rs: the text lines with their caret, and the forms.
--   Client/Tree     src/tui/tree.rs: the index of credentials and the rows of the register.
--   Client/Bundles  src/policy.rs: which entries form one credential (bundles_of, shapes_of).
--   Client/Http, Client/Payload, Client/Remote
--                   src/policy.rs: the request and the response, the JSON text of a bundle, loading and
--                   saving the vault (load_vault, put_vault, save_entries_read_back, fetch_schemas).
--   Client/View     src/tui/view.rs: regions, the action bar, what a click hits, the window of a list that
--                   scrolls and the columns.
--   Client/Forge    src/policy.rs: the host, origin, token and user of a bundle, and pick_forge;
--                   Forge/Helper is src/git_credential.rs.
--   Client/With     src/policy.rs: the arguments of --with, the variables they give to a program, and what
--                   src/run.rs redacts of its output.
--   Client/Register src/tui/model.rs: the state of the register and `handle`, which takes every event.
--                   Register/Detail is the detail pane, Register/Load loads, Register/Writes and
--                   Register/Commit save and delete, and Register/Begin and Register/Events have
--                   the handlers. Register/Run has the changes that a handler makes, as a relation.
--   Server/Sample   data for the modules Tests, which hold runs and instances of the theorems.
--
-- How the parts interact: the handlers of Device and Vault ask Sessions which session the headers open,
-- and Sessions, Vault and the revocations append to the chain of Audit within the transaction that
-- changes their own rows. All of them run on Conn, a connection that holds the tables. A Rust function
-- that returns anyhow::Result is a function from a connection to an optional value and a connection
-- (M of Server/Db), with do blocks for `?`; a handler returns a reply and the state it leaves.
--
-- On the client, Register is the state of the screens: its events edit a Form, choose a row of Tree, or
-- save through Remote, which sends all rows as one PUT and reads them back. What the client reaches
-- outside itself is the record Host of Client/Remote: the connection, the generator, the cipher, JSON,
-- hexadecimal, the clock and the clipboard. A handler takes the register and the world of the host and
-- returns both. The caret of a line counts characters, and a text is still the list of its UTF-8 bytes.
--
-- Failures of sqlite are an input: a connection carries the list of the statements that are refused, BEGIN,
-- COMMIT and ROLLBACK among them, and a statement behind the end of the list is taken. A connection
-- with an open transaction keeps the tables from before it, and `stored` is what the database holds:
-- those while the transaction is open, and the tables of the connection otherwise. A theorem with a premise
-- `Gives m t a t'` speaks of every run of m from the tables t that returned a, whatever was refused.
--
-- The text of users.json, from which a PUT of the vault fills the table of wraps anew, is an argument
-- of the handler, absent where the file is. Clocks, random bytes, identifiers and the draws of codes are arguments. Server/Device states the
-- reading of several clocks in their order. The loop that draws a code until it is unused runs over the
-- list of draws and asks for more at its end. The
-- padding of sha256 has fuel 64, since a length is congruent to 56 modulo 64 after at most 63
-- steps, and its chunk loop has the length of the message as fuel, which is more than the number of
-- chunks. The loop of detail_cols has fuel two above the width of the key column: a round drops the env
-- column or makes the key column one smaller.
--
-- Parameters, since their code is elsewhere: the cipher (chacha20poly1305), argon2, hexadecimal and base64
-- decoding on the server (hex, base64), the JSON text of values (serde_json), the format of times (time),
-- and lower-casing by Unicode. Hypotheses on them stand in records named for it (IsAead, IsHex,
-- IsHost).
--
-- Not modelled: the journal audit.jsonl behind the chain, the store of users.json and WebAuthn ceremonies, the routing
-- of axum, TLS, static files, wiping and locking memory, drawing the terminal, and starting
-- programs.
pub mod Base
pub mod Core
pub mod Server
pub mod Client
