-- ===== src/Lib.antt =====
-- A model of the backend of content hub: the records of content and their uploads, the ranking that
-- recommends a platform, the writer of CSV files, the publish flow that creates a post on a platform once at
-- most, the comments on the posts, the shop with its statement lines, and the paid campaigns.
--
-- The parts and their files:
-- - Base: the tests on numbers, the lists, the options and the service methods that the other modules
--   share. Base.Tables has the tables of rows with a key and unique indexes, Base.Int the integers over the
--   native numbers, Base.Grouping the accumulator that the two summaries share. A service method takes the
--   state and returns a result, or one of NestJS's exceptions, with the state (Base.Effects).
--   Base.Effects.Passing has the checks: methods that write nothing and either return or throw;
--   Base.Effects.Keeping has what such a check says of the method that it guards.
-- - Schema: the enums of backend/prisma/schema.prisma that several parts use, with toPostPlatform and
--   toAssetPlatform of backend/src/common/utils/platform-map.util.ts.
-- - Content: the rows of the table of contents (Content.Records) and CopyrightGateService of
--   backend/src/modules/content/copyright-gate.service.ts (Content.Gate), with String.trim on the code
--   points of a string (Content.Gate.Trim); assertMediaUrlIsOwned of
--   backend/src/modules/content/media-url.util.ts (Content.MediaUrl); create, update and archive of
--   backend/src/modules/content/content.service.ts (Content.Service), where a field of a body is left out,
--   null or given.
--   Content.Assets adds and removes the variants of a content as
--   backend/src/modules/content/content-asset.service.ts does. Content.Mp4 is the parser of
--   backend/src/modules/content/mp4-duration.ts on a list of bytes, and
--   Content.Upload validates an upload as backend/src/modules/content/upload-validation.service.ts does.
-- - Comments: the rows of comments and alerts (Comments.Records); evaluate and acknowledge of
--   backend/src/modules/comments/escalation.service.ts (Comments.Escalation); reply of
--   backend/src/modules/comments/comment-reply.service.ts (Comments.Reply); the canned replies of
--   backend/src/modules/comments/comment-templates.service.ts (Comments.Templates); the terms and the
--   rule-based classifier of backend/src/modules/comments/sentiment (Comments.Sentiment); the priorities of
--   backend/src/modules/comments/comment-triage.service.ts (Comments.Triage); the sync of
--   backend/src/modules/comments/comment-ingestion.service.ts (Comments.Ingestion); the list of
--   backend/src/modules/comments/comment-inbox.service.ts (Comments.Inbox); and the purge and the erasure of
--   backend/src/modules/comments/comment-retention.service.ts (Comments.Retention).
-- - Common: assertValidDateRange of backend/src/common/utils/date-range.util.ts (Common.DateRange), and the
--   rules on references and currencies that the shop and the paid campaigns have a copy of each
--   (Common.RefShape, Common.Currency).
-- - Commerce: backend/src/modules/commerce. Commerce.Market has the tables with their indexes,
--   Commerce.Duration assertShopeeDuration, Commerce.Catalog the products and links, Commerce.Placement the
--   placements of a content in a shop, Commerce.Anchor the products that are pinned on a post or a placement,
--   Commerce.Conversion the statement lines and their reversals, and Commerce.Read the summaries.
--   Commerce.Requests puts all requests together, and Commerce.Lawful says what they keep.
-- - Paid: backend/src/modules/paid. Paid.Desk has the tables, Paid.Campaign the campaigns, Paid.Performance
--   the append-only entries, Paid.Read the summary; Paid.Requests and Paid.Lawful are as in Commerce.
-- - Csv: the writer of backend/src/common/utils/csv.util.ts, with a reader after RFC 4180 (Csv.Reader) that
--   is no part of the program and that the writer is held against.
-- - Ranking: latestScorePerPlatform, pickRecommendedScore and their constants of
--   backend/src/modules/ranking/ranking.constants.ts, and getLatestScores and getRecommendation of
--   backend/src/modules/ranking/ranking-engine.service.ts (Ranking.Recommendation).
-- - Publish: backend/src/modules/publish. Publish.Posts is the table of posts with its statements and its
--   partial unique index, Publish.Store the other tables, the audit log and the queue, Publish.StepUp
--   assertFreshPassword, Publish.Orchestrator the requests createAndDispatch, redispatch and
--   recordManualExternal (create_intent and redispatch_intent are the first two up to the row that they write),
--   Publish.Enqueue the end of those two, with auditAndEnqueue, Publish.Execution the job that publishes a post,
--   Publish.Resolution resolveAsPosted and resolveAsNotPosted. Publish.Interleaving lets any number of runs of the job and
--   of requests take their steps in any order.
--
-- How the parts interact: a request of the orchestrator asks the step-up, reads the content and passes the
-- copyright gate again, reads the scores through the ranking, inserts or updates a row of the table of posts
-- under the index, and adds a job to the queue, which keeps its jobs and takes none whose post and version it
-- knows. A run of the job claims the row by its version, calls the adapter of the platform, and writes the
-- outcome. A resolution takes a row of unknown outcome out of it.
-- A sync of the comments takes the posts that were published, classifies what the platforms show of each,
-- appends what is new under the index of comments, and lets the escalation look at the result. A placement in
-- the shop passes the step-up and the copyright gate as a post does. A statement line names a post or a
-- placement, and the summary of a content finds it through them.
--
-- What is chosen: ids, versions, times and scores are natural numbers (scores are scaled by ten thousand,
-- which keeps the order of Decimal(10,4)); strings are kept as they are. A table is a list of rows; a lookup
-- by the key takes the first row. The scan of MP4 boxes runs on fuel, one more than the end of
-- its range, and each box ends after its offset, so that the fuel is never used up. The reader of CSV rows
-- runs on fuel, one for each field. A run of the publish job takes one step for each environment that it is
-- given, and Publish.Interleaving puts no bound on the number of the steps. Amounts of money are hundredths,
-- integers where they can be negative, which Decimal(12,2) stores and round2 leaves as they are; dates are
-- milliseconds, and a column of type date keeps the day (to_day). A time that a body gives is a valid date.
--
-- What stands outside and is a parameter: the clock and fresh keys, argon2.verify, the engine that the
-- configuration names, whether the queue answers (queue_up of Publish.Store.Ports), the platform behind an
-- adapter (Env and Reply of Publish.Execution), whether a write to the database goes through (Fate), the
-- delivery of jobs by BullMQ (Step of Publish.Interleaving), and what a sync meets (SyncEnv of
-- Comments.Ingestion: the comments that a platform shows, the classifier, the insertions that fail), what a
-- reply meets (ReplyEnv of Comments.Reply: the token, the answer of the platform, and whether the updates that
-- store the reply or roll the claim back go through), the order in which the database gives the comments of a
-- page that are equal in both columns of the order (an argument of list_comments of Comments.Inbox), and the
-- local calendar of the server (Calendar of Comments.Retention).
--
-- What is not modelled: HTTP controllers and validation decorators, logging, the meta data of audit rows
-- beside the post, the adapters' HTTP, OAuth and storage; the engines that compute scores; the exports of the
-- shop and of the paid campaigns; and the parts of the program that the list above does not name. toLowerCase
-- and toUpperCase are kept to the characters that the searched texts can tell apart. A foreign key to a user
-- is modelled for the statement lines only.
pub mod Base
pub mod Comments
pub mod Commerce
pub mod Common
pub mod Content
pub mod Csv
pub mod Paid
pub mod Publish
pub mod Ranking
pub mod Schema
