-- ===== src/Lib.antt =====
-- The subscription service's core: the store of users and their inbounds, the queue of writes to a
-- 3x-ui panel, its worker and the panel's client, the cache in front of the panel, the scan of the
-- panel's inbounds for a subscriber, the resolver that makes a subscription of it, the template
-- profile that a subscriber gets, the admin's sessions, the admin panel's handlers of users, the
-- templates with their cache and their import, the YAML that is rendered from them, the share links
-- that it is rendered of, the catalogue of applications, the routing profiles, the themes' files, and
-- the rate limiter.
--
-- How the parts interact: an edit changes the user store (internal/users/users.go), which reports
-- the assignments that it added and removed, and enqueues jobs (internal/sync/sync.go); the worker
-- (internal/sync/worker.go) claims them, pushes each to the panel and invalidates the cache
-- (internal/xui/cache.go) after a success; a request for a subscription resolves the token
-- (internal/resolver/resolver.go) from the cached lists, which internal/xui/parse.go scans for the
-- token's clients; the rendering then asks internal/assignment for the profile and
-- internal/generator/tmplcache for its template. The admin panel (internal/admin/handlers_users.go)
-- runs these edits; an import (internal/importer/importer.go) writes the templates, the
-- applications and the themes that the files on disk ship, beside the edits of the panel.
--
--   Prelude: shared types, names of the library and lemmas. Prelude.Errors has Go's errors and the
--     failures of the database engine, Prelude.Table the SQL statements on a list of rows, Prelude.Int
--     the integers with int64's wrap-around.
--   Sync.Store: internal/sync/sync.go, one function for each method of Store; Sync.Store.Accounts
--     says what each of them may do to a job. Sync.Worker:
--     internal/sync/worker.go, `tick`, `process` and `dispatch` on a `World` of table, panel and cache.
--   Xui.Models, Xui.Cache, Xui.Parse: internal/xui/models.go, cache.go and parse.go.
--   Xui.Client: internal/xui/client.go; its `writer` is the panel interface of the worker.
--   Xui.Dynamic: internal/xui/dynamic.go, the client rebuilt when the settings change.
--   AdminAuth: internal/adminauth/adminauth.go, the admin account and its sessions.
--   Users: internal/users/users.go; `SetInbounds` is in Users.SetInbounds.
--   Domain: internal/domain/domain.go. Resolver: internal/resolver/resolver.go.
--   Assignment: internal/assignment/assignment.go and migrate.go.
--   Templates: internal/templatestore/templatestore.go. TmplCache:
--     internal/generator/tmplcache/tmplcache.go. Importer: internal/importer/importer.go; the rows of
--     one key are followed in Importer.Slot, Importer.Pruning and Importer.Runs; Importer.Themes has
--     the themes, Importer.Whole the whole import. Themes: internal/theme/admin.go.
--   Apps: internal/apps/apps.go. Routing: internal/routing/routing.go, happjson.go and migrate.go.
--   Generator: internal/generator, ClientContext in tmplctx/tmplctx.go; Generator.ShareLink:
--     tmplctx/sharelink.go. Generator.Yaml: yamlgen/inject.go and yamlgen.go, with the proxy groups in
--     Groups and the whole document in Document; what a group's options and filters mean is in
--     Options, Choices and Refusals.
--   RateLimit: internal/ratelimit/ratelimit.go. ConnLink: internal/connlink/connlink.go.
--   Admin: internal/admin/handlers_users.go; the handlers are in Admin.Users and Admin.Bulk.
--
-- Conventions. A table is the list of its rows in the order of the primary key or of insertion, as
-- internal/store/schema.sql declares it, with the next id of an AUTOINCREMENT. Each call of the
-- engine takes a `Fault` that says whether it fails and how; a transaction is a computation whose
-- result `commit` stores or drops. A clock read is an argument, in nanoseconds since the epoch.
-- A stored time is its 64 bits as a natural number, which is int64's value for all times below 2^63.
-- Methods return the new state with their result. Ids, counts and the panel's ports are natural
-- numbers, so that a negative port in an entry of a host is not represented; the traffic counters, quotas and expiries are integers, added with the wrap-around of
-- int64, and the product in the worker's backoff is taken on 64 bits. The JSON payload of a job is
-- the payload itself. The text of an error keeps the context that `fmt.Errorf` adds, without the
-- ids in it. The errors of RowsAffected and LastInsertId, which the engine does not report, and of
-- encoding a struct as JSON, which cannot happen for these structs, have no branch. All loops are
-- structural recursion on a list or on the number of attempts that are left, so no fuel is needed.
--
-- Parameters: the panel (`Writer`, `Lister`, `Upstream`) is a record of functions on a state of its
-- own; the JSON decoder, net.SplitHostPort and strconv.Atoi are the record `Xui.Parse.Std`, and
-- what the client calls of net/http, encoding/json and net/url is the record `Xui.Client.Wire`. The
-- order in which Go ranges over a map is the function `range` of an import, and the compiler of
-- templates the field `parse` of their cache. JSON for lists of texts is `Apps.Json`, the encodings
-- of a routing profile are `Routing.Codec`, the maps of a theme are encoded by `Themes.Json`, and
-- what a form's fields are parsed with `Admin.Parsers`. What the parsing of share links calls is
-- `Generator.ShareLink.Std`. The YAML library is `Generator.Yaml.Codec`, and regular expressions
-- and the random source are `Generator.Yaml.Std`; a document is the tree of its nodes, without
-- comments and anchors. A token bucket is `RateLimit.Rate`. bcrypt is the record
-- `AdminAuth.Bcrypt`. A fresh uuid, the outcome of the random source and the client that
-- config.LoadFromDB makes of the settings are arguments.
--
-- Not modelled: logging and waiting, contexts except in the client's loop, the sharing of one
-- upstream call by concurrent callers of the cache, the HTTP handlers other than those of the admin
-- panel that change users, the rendering of the other generators and of the themes, configuration,
-- and the files of the web interface.
pub mod Admin
pub mod AdminAuth
pub mod Apps
pub mod Assignment
pub mod ConnLink
pub mod Domain
pub mod Generator
pub mod Importer
pub mod Prelude
pub mod RateLimit
pub mod Resolver
pub mod Routing
pub mod Sync
pub mod Templates
pub mod Themes
pub mod TmplCache
pub mod Users
pub mod Xui
