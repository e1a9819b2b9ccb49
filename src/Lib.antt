-- ===== src/Lib.antt =====
-- The web client of LDAP Warden (web/src), a React application that manages an LDAP directory
-- through a JSON API. This library models the logic that its pages share, and the parts of it
-- that decide what is sent to the directory and what an operator is told about it.
--
-- The parts, and the files that model them:
-- - Prelude: the numbers, lists and texts that the other modules share. A JavaScript string is
--   the list of its UTF-16 code units (JsString), and a literal is written `text "..."`.
-- - Dn (web/src/lib/utils.ts, encodeDN and decodeDN): a DN as a segment of a route of the
--   client. Compare holds sameDn and rdnValue, Base64 the browser's btoa and atob, Codec the
--   two functions, and Encoding, UrlAlphabet, Padding and RoundTrip the proofs.
-- - Timestamp (web/src/lib/utils.ts, the timestamp functions): LDAP generalized time. Calendar
--   holds what the code uses of JavaScript's Date, Parse the functions. An instant is the
--   number of milliseconds since the start of the year 0.
-- - Account (web/src/lib/account.ts, and lockLabel and statusOf of
--   web/src/components/account-status.tsx): the lock and the expiry of an account.
-- - Netgroup (web/src/lib/netgroup.ts): what a netgroup names, how sudo reads it, the text of a
--   triple, and looking a netgroup up by its name.
-- - Session (web/src/lib/use-server-info.ts, web/src/lib/sections.ts and web/src/lib/auth.tsx):
--   the enabled modules, the sections of the navigation, and AuthProvider as a state machine,
--   whose events are those of its effects and callbacks.
-- - Bulk (web/src/lib/bulk.ts): runBulk, as the steps between its awaits, bulkSummary and
--   warningsOf; Report is what a page says of a run (web/src/components/users-bulk-actions.tsx
--   and web/src/components/bulk-result-dialog.tsx).
-- - Outcome (web/src/lib/outcome.ts): the queue of messages to the operator.
-- - Values and ListSearch (web/src/lib/list-search.ts): values of unknown type, with parseInt
--   and what JSON.stringify drops, and the view of a list page in its URL.
-- - Api (web/src/lib/api.ts): Schema and Schemas are the descriptions of the answers, and
--   Schema.Types the types they stand for; Uri and Query what encodeURIComponent and
--   URLSearchParams make of a text, and the query strings; Request and Calls every call of
--   `api` with the request that it makes; Fetch is fetchApi and fetchApiPublic, as the steps
--   between which they wait.
-- - CsvImport (web/src/components/csv-import.tsx): autoMap and buildRow; Steps is the
--   component, as a state with the events of its buttons, of the parser and of the server;
--   ImportFields holds the fields of the three import pages (web/src/routes/*/import.tsx), and
--   Template is about a file with the header of the template.
-- - FormSync (web/src/lib/form-sync.ts): useSyncedForm and useCreationFormDirty; Blocker is
--   useUnsavedChangesBlocker with web/src/components/unsaved-changes-guard.tsx.
-- - RowSelection (web/src/lib/use-row-selection.ts): the selected rows of a list page.
-- - Password (web/src/lib/password.ts): generatePassword.
-- - Ui: Tabs and DetailTabs (web/src/components/ui/tabs.tsx, and how the pages of an entry
--   choose their tab), Paging (web/src/components/ui/pagination.tsx), Picker
--   (web/src/lib/use-picker-search.ts) and SearchBox (web/src/lib/use-url-search-input.ts with
--   web/src/lib/use-debounced.ts).
-- - UserPage (web/src/routes/users/$dn.tsx): Forms holds the forms of the tabs and
--   changedFields, with a form saved while others edit the entry in Forms.SaveLaws, Shadow what
--   the shadow tab sends, ClassTab a tab whose object class may be added, TabChoice the tabs,
--   Security the rename, the passwords and the choice of a policy, Keys the public keys,
--   Memberships the dialog that adds to groups, Expiration the day on which the account
--   expires, and PosixIds web/src/components/posix-ids-change.tsx.
-- - UserList (web/src/routes/users/index.tsx): the list of accounts, and NewUser
--   (web/src/routes/users/new.tsx) what is sent to create one; States is its form as it is
--   filled in.
-- - AuditPage (web/src/routes/audit-logs.tsx): the filters of the audit log, with their changes
--   in Events, and Palette (web/src/components/command-palette.tsx) the command palette: its
--   commands, and its state in States.
-- - DirectoryChanges (web/src/components/directory-changes.tsx): the directory's own log, and
--   PolicyPage (web/src/routes/password-policies) the form of a policy and durations.
-- - SudoPage (web/src/routes/sudo-roles/new.tsx and $dn.tsx): the form of a sudo rule.
-- - SignIn (web/src/routes/login.tsx, web/src/routes/reset-password.$token.tsx and the two
--   password components of web/src/components/ui): signing in, with the form in LoginForm, and
--   resetting a password.
-- - Display: Tones (web/src/lib/tones.ts), PageTitle (web/src/lib/page-title.ts), Tasks
--   (web/src/lib/scheduled-tasks.ts), AuditLinks (web/src/lib/audit-links.ts) and Theme
--   (web/src/lib/theme.tsx).
-- - GroupPage (web/src/routes/groups/$dn.tsx): the tabs, the Samba form and the rename of a
--   group.
-- - NetgroupPage: Usage (web/src/components/netgroup-usage.tsx and its neighbours) are the
--   warnings about the netgroups of a sudo rule, Triples
--   (web/src/components/netgroup-triples.tsx) the editor.
--
-- How they interact: the pages link to an entry by encodeDN and read its DN back by decodeDN;
-- they ask for it by the calls of Api, whose 401 answers run the callback that Session models
-- as the event auth_error; Account reads the timestamps of an entry by Timestamp; Session
-- decides by the modules that the server enables which sections there are, with the rule that
-- guards the routes. The tabs of UserPage keep their forms by FormSync; the warnings of
-- NetgroupPage look names up by Netgroup.Lookup; a picker asks for its candidates with the
-- parameters of Api.Query.
--
-- Names: a function keeps its name in the source, in lower case with underscores. `undefined`
-- and an optional field that is missing are `none`; a thrown error is `none` or a value of a
-- result type. Code that is not in the repository is an argument: the validation library
-- (safe_parse), decodeURIComponent (decode_uri), what depends on the reader's locale, Number()
-- of a text, toLowerCase, JSON.stringify, the reading of an RFC 3339 time, and the random
-- bytes. What the language and the browser specify, and the code relies on, is written out:
-- btoa, atob, Date.UTC, encodeURIComponent, URLSearchParams, and what fetch makes of dot
-- segments in a path. The routes of the server about an entry (internal/api/routes.go), by
-- which the calls are judged, are in Api.Calls.Path and Api.Calls.DnLaws.
--
-- Where JavaScript waits, the code up to the next await is one step: Bulk.Run.Trace are the
-- possible orders in which requests are settled, and Api.Fetch.run goes through the events of
-- one request. Loops are recursive on the list that they go through. Three have fuel: the year
-- of a day (as many rounds as the day number holds spans of 365 days, and one more), its month
-- (11), and the padding of decodeDN (3); the theorems on iso_date and decode_dn show that this
-- is enough. generatePassword goes on as long as there are buffers, and has its length once
-- enough bytes have been accepted.
--
-- Not modelled: the markup of the pages and components, the pages that only lay out what is
-- modelled (the dashboard, the settings, and the lists other than that of the accounts), the
-- hooks that wrap key events and browser storage, the CSV parser (a library), the generated
-- route tree, and the API server, which is written in another language.
pub mod Prelude
pub mod Display
pub mod Dn
pub mod Netgroup
pub mod Session
pub mod Bulk
pub mod Outcome
pub mod Timestamp
pub mod Values
pub mod Ui
pub mod ListSearch
pub mod Api
pub mod Account
pub mod CsvImport
pub mod FormSync
pub mod Password
pub mod RowSelection
pub mod UserPage
pub mod UserList
pub mod NewUser
pub mod SudoPage
pub mod SignIn
pub mod AuditPage
pub mod DirectoryChanges
pub mod PolicyPage
pub mod Palette
pub mod GroupPage
pub mod NetgroupPage
