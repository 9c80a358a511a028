-- ===== src/Store/Bucket.antt =====
-- The bucket of gocloud.dev/blob: an interface that the store takes, since its code is not part of
-- the repository, with the behaviour that the store relies on.
use open_artifact.Shared.{
  ℕ, ◌≡◌, ◌≢◌, ◌⊎◌, Bool, true, false, Option, none, some, List, [], ◌++◌, Bytes, Code, missing,
  precondition,
}

-- What a driver call answers: a value, or an error with its gcerrors code.
pub data Reply {ℓ} (A : Type ℓ) : Type ℓ where
  done : A → Reply A
  failed : Code → Reply A

abbrev pub is_some {ℓ} : {A : Type ℓ} → Option A → Bool
is_some none = false
is_some (some a) = true

-- blob.Attributes, as far as the store reads it
pub record Attributes : Type 0 where
  pub size : ℕ
  pub mod_time : ℕ

-- blob.ListObject: a key, or under a delimiter the common prefix of a directory
pub record ListObject : Type 0 where
  pub key : Bytes
  pub is_dir : Bool

-- What a reader yields: its bytes, and the code of the error with which it breaks off.
pub record Reading : Type 0 where
  pub content : Bytes
  pub broken : Option Code

-- The calls may fail at any time. A `State` is the objects and all else on which answers depend;
-- `content` is the view of its objects by key.
pub record Bucket : Type 1 where
  pub State : Type 0
  pub content : State → Bytes → Option Bytes
  pub exists : Bytes → State → Reply Bool × State
  pub read_all : Bytes → State → Reply Bytes × State
  -- NewReader, with all that its reader yields
  pub new_reader : Bytes → State → Reply Reading × State
  pub attributes : Bytes → State → Reply Attributes × State
  pub sign : Bytes → State → Reply Bytes × State
  -- the keys under a prefix; with the delimiter, a key with a further slash shows as a directory
  pub list : Bytes → State → Reply (List Bytes) × State
  pub list_delimited : Bytes → State → Reply (List ListObject) × State
  -- NewWriter, Write, and the abort of a writer whose context is cancelled before Close
  pub open_writer : Bytes → State → Reply (Unit {0}) × State
  pub stream : Bytes → Bytes → State → Reply (Unit {0}) × State
  pub abort : Bytes → State → State
  -- WriteAll, and Close of a writer that has taken the bytes; the flag is IfNotExist
  pub write : Bytes → Bytes → Bool → State → Reply (Unit {0}) × State
  pub delete : Bytes → State → Reply (Unit {0}) × State

-- The documented behaviour. Reads, listings and aborted writers change no object.
pub record IsLawful (b : Bucket) : Type 0 where
  pub exists_frame : (k j : Bytes) (s : b.State) → b.content (b.exists k s).1 j ≡ b.content s j
  pub read_frame : (k j : Bytes) (s : b.State) → b.content (b.read_all k s).1 j ≡ b.content s j
  pub reader_frame : (k j : Bytes) (s : b.State) → b.content (b.new_reader k s).1 j ≡ b.content s j
  pub attributes_frame :
      (k j : Bytes) (s : b.State) → b.content (b.attributes k s).1 j ≡ b.content s j
  pub sign_frame : (k j : Bytes) (s : b.State) → b.content (b.sign k s).1 j ≡ b.content s j
  pub list_frame : (k j : Bytes) (s : b.State) → b.content (b.list k s).1 j ≡ b.content s j
  pub list_delimited_frame :
      (k j : Bytes) (s : b.State) → b.content (b.list_delimited k s).1 j ≡ b.content s j
  pub open_frame : (k j : Bytes) (s : b.State) → b.content (b.open_writer k s).1 j ≡ b.content s j
  pub stream_frame : (k v j : Bytes) (s : b.State) → b.content (b.stream k v s).1 j ≡ b.content s j
  pub abort_frame : (k j : Bytes) (s : b.State) → b.content (b.abort k s) j ≡ b.content s j
  pub exists_answer :
      (k : Bytes) (s : b.State) {v : Bool} → (b.exists k s).0 ≡ done v → v ≡ is_some (b.content s k)
  pub read_answer :
      (k : Bytes) (s : b.State) {v : Bytes} → (b.read_all k s).0 ≡ done v → b.content s k ≡ some v
  -- A reader yields the object, or a beginning of it and an error.
  pub reader_answer :
      (k : Bytes) (s : b.State) {r : Reading}
      → (b.new_reader k s).0 ≡ done r
      → (rest : Bytes) × (b.content s k ≡ some (r.content ++ rest))
        × ((rest ≡ []) ⊎ ((c : Code) × (r.broken ≡ some c)))
  pub read_missing :
      (k : Bytes) (s : b.State) → (b.read_all k s).0 ≡ failed missing → b.content s k ≡ none
  -- A write touches its own key alone, and is there in full once it is acknowledged. One that
  -- fails leaves the old object or the whole new one.
  pub write_frame :
      (k v : Bytes) (once : Bool) (s : b.State) (j : Bytes)
      → k ≢ j
      → b.content (b.write k v once s).1 j ≡ b.content s j
  pub write_done :
      (k v : Bytes) (once : Bool) (s : b.State)
      → (b.write k v once s).0 ≡ done tt
      → b.content (b.write k v once s).1 k ≡ some v
  pub write_whole :
      (k v : Bytes) (once : Bool) (s : b.State)
      → (b.content (b.write k v once s).1 k ≡ b.content s k)
        ⊎ (b.content (b.write k v once s).1 k ≡ some v)
  -- IfNotExist: an object that is there is neither replaced nor reported as written.
  pub write_once :
      (k v : Bytes) (s : b.State) {x : Bytes}
      → b.content s k ≡ some x
      → (b.content (b.write k v true s).1 k ≡ some x) × ((b.write k v true s).0 ≢ done tt)
  pub write_refused :
      (k v : Bytes) (once : Bool) (s : b.State)
      → (b.write k v once s).0 ≡ failed precondition
      → (once ≡ true) × (b.content s k ≢ none)
  pub delete_frame :
      (k : Bytes) (s : b.State) (j : Bytes) → k ≢ j → b.content (b.delete k s).1 j ≡ b.content s j
  pub delete_done :
      (k : Bytes) (s : b.State) → (b.delete k s).0 ≡ done tt → b.content (b.delete k s).1 k ≡ none
  pub delete_missing :
      (k : Bytes) (s : b.State)
      → (b.delete k s).0 ≡ failed missing
      → b.content (b.delete k s).1 k ≡ none
