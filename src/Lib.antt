-- ===== src/Lib.antt =====
-- The account manager's backend: its data model, the in-memory repository, the backups, and the import
-- and export of mailboxes.
--
-- The program keeps mailboxes of several providers with their aliases, credentials, pickup keys and
-- platform accounts, a cache of their messages, mailbox formats for import and export, versioned
-- settings, and backup targets with their runs. Services and workers reach this data through the
-- interfaces of backend/internal/ports, which backend/internal/repository/memory implements; the
-- backup package creates runs by schedule and on demand and works them off.
--
-- Parts and files:
--   Domain       backend/internal/domain: one record for each stored type, one data type for each
--                enumeration. A type that is a string in the source and is only compared is a Text.
--   Ports        backend/internal/ports/repositories.go: the options of list queries (Normalize),
--                with pages in Ports/Pages.
--   Memory       backend/internal/repository/memory/store.go and message_cache.go: the record Store
--                has the maps of the struct, in its order; each method is a function of the same name
--                in a child module (Settings, Connections, Mailboxes, Aliases, Credentials, Import,
--                Formats, PickupKeys, Accounts, BackupTargets, BackupRuns, Messages, Capabilities).
--                Operations has one constructor for each method that writes. Consistency and its
--                children are about the constraints between the maps.
--   Backup       backend/internal/backup. Scheduler is scheduler.go (listTargets, RunOnce and
--                ParseSchedule). Platform and Engine are service.go (Run, Execute, Restore), Worker is
--                worker.go (Run, ProcessNext, StartRestore, Restore) with boundedRunError in Failure.
--                Restores is the coordinator of restores.go, whose Start, Get and observe are steps on
--                the state under its lock. All of them work on the memory store; the engine's World
--                has the object stores and the database beside it. A snapshot may read the repository
--                and a restorer replace it, since its records stand in the database.
--   Services     backend/internal/service. TokenRefresh is token_refresh_settings.go, CleanupWorker is
--                RunOnce of message_cache_cleanup_worker.go. Of formats.go: Formats is the targets,
--                FormatBuild is build, FormatService the service over the memory store. Of
--                importexport.go: Delimited is a line of a delimited file, DelimitedInput the file
--                (parseDelimitedInput and the delimited case of renderExport), ImportPreview the loop
--                of Preview over parsed rows, ExportValues and Export are Export up to the rendering.
--   Tests        concrete stores and runs on them.
--   Prelude      what the other modules share: Go maps as association lists, strings as lists of code
--                points, int64 with its wrap-around, results.
--
-- State and concurrency: a method that locks the store and writes is a function that returns its
-- result beside the new store, so a process's writes are a sequence, in the order in which they took
-- the lock. `ctx` is what `ctx.Err()` returns; where a method asks more than once, it is a function of
-- the number of the question. Values are immutable, so the copies of the clone functions are left
-- out, and a map that an import copies is the map itself: sharing between Go maps is not modelled.
-- An error is its sentinel; messages are left out. The order of the entries of a map stands for the
-- order in which a range loop meets them. `sort.Slice` is an insertion sort by the same comparison.
--
-- Numbers: versions are int64 with wrap-around; times are instants; the counters of loops count
-- elements of slices and maps and stay below the bound of int.
--
-- Fuel: the loops over pages, listTargets (and with it RunOnce of the scheduler) and exportMailboxes; one
-- unit for each page, so one more than the pages that the items fill is enough. The rounds of the
-- cleanup worker; one unit for each call of the store. The rounds of the backup worker until it waits;
-- one more than the pending runs is enough.
--
-- Parameters: json.Valid, json.Marshal and json.Unmarshal, strings.ToLower and strings.EqualFold,
-- strconv and time.Format, SHA-256, the cron parser with its Next, the generator of ids, the starter of
-- restores, the secret broker, the object stores, the registry of providers, compileMailboxTemplate of
-- backend/internal/service/importexport.go (regular expressions), the tools that snapshot and restore
-- the database, and the exporter of pickup keys. Where a theorem relies on what they document, a
-- record of hypotheses says so, and a concrete instance meets it.
--
-- Text: a string is the list of its code points, so it is valid UTF-8; lengths in bytes are computed where
-- the source counts bytes. Quotes and delimiters are compared at code points, as the source does.
--
-- Not modelled: the postgres repository (SQL), the HTTP API, the providers (remote services),
-- cryptography and process wiring. Of the import and export, the template formats (the standard
-- library's regular expressions parse them), the JSON files, and the steps from a parsed line to a sealed
-- item. The other services. Of the loops that run until the process ends, the timers.
pub mod Prelude
pub mod Domain
pub mod Ports
pub mod Memory
pub mod Backup
pub mod Services
pub mod Tests
