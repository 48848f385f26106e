-- ===== src/Lib.antt =====
-- OrbitCloud keeps files of many users in buckets of an object storage, with folders, quotas and
-- visible groups in a database, and serves them over HTTP and, by a gateway, over SMB. This
-- library models the core of its Go code.
--
-- The gateway (smb_server/go) gives each opened file a handle. Writes go to the handle's
-- write-back cache, a table of segments, since the storage has no random writes; a flush puts the
-- object together from the table and the old object, uploads it whole, and books the new size.
-- The permission checks, of HTTP handlers (api/perm.go) and of the gateway, walk up the folders
-- and share the rule of the visible groups (server/visibility.go).
--
--   Base             common/errors.go as Error and Result; numbers, lists, tests, integers.
--   Storage          core/storage.go: the interface as a record with laws, and in Storage.Local
--                    the local driver, which meets it.
--   BucketCoder      utils/bucket_coder.go.
--   Quota            server/quota.go: the checks, and in Quota.Booking what they keep.
--   Access           the rows; Access.Walk the walks up the folders (server/file.go,
--                    server/visibility.go), Access.Rule the visible groups, Access.Http
--                    api/perm.go, Access.Smb smb_server/go/session.go.
--   Smb.WriteCache   smb_server/go/write_cache.go: ApplyWrite is apply_write, ReadRange is
--                    read_range; Smb.WriteCache.Flush is FlushToStorage.
--   Smb.Handle       smb_server/go/file_io.go with remoteHandle of file_ops.go: readInner, Write,
--                    Flush, Truncate, Stat on one handle; in Smb.Handle.Closing the
--                    Close of file_dir.go where the file is not deleted with it.
--   Smb.Registry     smb_server/go/registry.go.
--   Smb.Frame        smb_server/go/protocol.go: the codec of the frames to the gateway's front.
--   RateLimit        server/ratelimit.go: the ring of refused requests.
--   Auth             server/user.go: Register, Login, Refresh, Logout, UpdateMe, UpdateUser and the
--                    tokens of model/refresh_token.go; Auth.Calls is any sequence of them.
--   Cron             cron/enter.go: the clean-up of expired rows in batches.
--   Drive            the rows of files, folders and shares with what server/file.go reads of them.
--                    Drive.Action is a handler as a chain of steps that may fail;
--                    Drive.Resolve common/path.go, Drive.Upload server/file_upload.go,
--                    Drive.Copy and Drive.Move server/file_copy_move.go, with Drive.Across for the
--                    moves to another bucket, which are tasks of server/copy_task.go that
--                    cron/resume.go resumes, Drive.Recycle server/file_delete.go and
--                    server/recycle_bin.go with Drive.Subtree for the purging of folders,
--                    Drive.Download server/file_download.go. Drive.Calls is any sequence of
--                    requests on files and of new, moved and purged folders; Drive.Books is what
--                    the booked space has to be, Drive.Keeping what each step leaves as it was.
--   Groups           server/user_group.go, with the listings in Groups.Listing.
--   Page             common/page.go: PageQuery on the rows in their order.
--   Share            server/share.go; Share.Access server/share_access.go.
--   Names            common/validate.go: the names of items and the paths of folders.
--   Range            utils/range.go and utils/byte_range.go: the Range header of a download.
--
-- A method that mutates its receiver is a function to the new state; the mutexes make each call
-- one step. Offsets and sizes are natural numbers: the code rejects negative ones or never makes
-- them, but for an offset of the gateway of 2 ^ 63 or more, whose cast to an int64 is not modelled.
-- Quotas and used space are integers; the counter of handles wraps at 2 ^ 64. The order that sort.Slice, which is not stable, gives two segments of one offset is a parameter. A
-- walk runs on one round more than there are folders, which is enough on cyclic folders too;
-- BucketEncoder runs on as many rounds as the id. The search for a free name has the code's 1000
-- rounds, the draw of a share's token its 5, the walk that keeps a folder from being moved below
-- itself one round more than there are folders, and the purging of a folder fuel_for_purge rounds.
-- Lower case, the comparison without case, the hashes and the signing are libraries and are
-- parameters, as are the clock, what is drawn at random, and LIKE of the database. The column
-- visible_to_groups is taken as what the JSON parser makes of it.
--
-- Not modelled: the locks of the tasks, which one call at a time takes and gives back; log lines,
-- failing updates of the database, errors of the file system, the S3 driver (calls of a library),
-- the cache of identities (a library), the transport of the gateway, the other background tasks
-- (copies of folders, deletions of trees and buckets), the listings of folders and searches, which
-- are SQL text, the routes of the HTTP server, and the tools for deployment.
pub mod Access
pub mod Auth
pub mod Base
pub mod BucketCoder
pub mod Cron
pub mod Drive
pub mod Groups
pub mod Names
pub mod Page
pub mod Quota
pub mod Range
pub mod RateLimit
pub mod Share
pub mod Smb
pub mod Storage
