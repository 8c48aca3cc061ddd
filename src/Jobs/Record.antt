-- ===== src/Jobs/Record.antt =====
-- The rows of the queue, from src/scs/indexing/jobs.py: the literal types, `IngestionJob`, and the
-- JSON payload that a row carries. A timestamp is a number of seconds: the code's ISO texts have
-- one width, so their order as texts is the order of the numbers.
use scs.Base.{ℕ, Bool, true, false, Option, List, Text, codes, ◌||◌}

-- `IngestionJobMode`
pub data Mode : Type 0 where
  files full force_full cleanup drop_index : Mode

-- `IngestionJobStatus`
pub data Status : Type 0 where
  queued running retrying cancelling completed failed cancelled : Status

-- The text of a status, as the code stores it in `phase` too.
abbrev pub status_text : Status → Text
status_text queued = codes "queued"
status_text running = codes "running"
status_text retrying = codes "retrying"
status_text cancelling = codes "cancelling"
status_text completed = codes "completed"
status_text failed = codes "failed"
status_text cancelled = codes "cancelled"

-- A Python `int`; `negsuc n` is -(n + 1).
pub data Integer : Type 0 where
  pos negsuc : ℕ → Integer

-- One file of a force-full manifest as JSON holds it. A field is `none` where the key is missing or
-- its value has another type, which is what the `isinstance` tests reject; `acknowledged` is the
-- truth value of its key. Other keys are never read and are left out.
pub record RawFile : Type 0 where
  pub rel_path : Option Text
  pub content_hash : Option Text
  pub language : Option Text
  pub byte_size : Option Integer
  pub acknowledged : Bool

-- A manifest file after validation.
pub record SnapshotFile : Type 0 where
  pub rel_path : Text
  pub content_hash : Text
  pub language : Text
  pub byte_size : ℕ
  pub acknowledged : Bool

-- A manifest object. `files` is `none` where the value is no list of objects.
pub record Snapshot : Type 0 where
  pub store_id : Option Text
  pub store_generation : Option Text
  pub files : Option (List RawFile)

-- What stands under the payload key `force_full_snapshot`; `malformed` is a value that is no object.
pub data SnapshotEntry : Type 0 where
  absent malformed : SnapshotEntry
  held : Snapshot → SnapshotEntry

-- A JSON payload by the keys that the queue reads; `none` is a missing key. The two path keys
-- hold lists of texts, as the code's casts say. A value under another key is an opaque text.
pub record Payload : Type 0 where
  pub file_paths : Option (List Text)
  pub deleted_paths : Option (List Text)
  pub force_full_snapshot : SnapshotEntry
  pub others : List (Text × Text)

-- `IngestionJob`, a row of the table `ingestion_jobs`.
pub record Job : Type 0 where
  pub id : Text
  pub repo_path : Text
  pub store_id : Option Text
  pub store_generation : Option Text
  pub mode : Mode
  pub reason : Text
  pub payload : Payload
  pub status : Status
  pub phase : Text
  pub current : ℕ
  pub total : ℕ
  pub message : Text
  pub attempts : ℕ
  pub max_attempts : ℕ
  pub lease_owner : Option Text
  pub lease_expires_at : Option ℕ
  pub error : Option Text
  pub result : Option (List (Text × Text))
  pub created_at : ℕ
  pub updated_at : ℕ
  pub finished_at : Option ℕ

-- `status IN ('queued', 'retrying')`
abbrev pub is_queue : Status → Bool
is_queue queued = true
is_queue retrying = true
is_queue _ = false

-- `status IN ('running', 'cancelling')`
abbrev pub is_leased : Status → Bool
is_leased running = true
is_leased cancelling = true
is_leased _ = false

-- `ACTIVE_JOB_STATUSES`
abbrev pub is_active : Status → Bool
is_active s = is_queue s || is_leased s

abbrev pub is_drop : Mode → Bool
is_drop drop_index = true
is_drop _ = false
