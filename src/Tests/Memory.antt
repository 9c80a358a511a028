-- ===== src/Tests/Memory.antt =====
-- A bucket that keeps its objects in a map and never fails, in the manner of memblob.
use open_artifact.Shared.{
  ◌≡◌, refl, ap, sym, subst, ◌⊎◌, inl, Code, arith, Bool, true, false, ◌&&◌, Option, none, some,
  List, [], ◌∷◌, ◌++◌, map, Bytes, cut, append-nil, trim_prefix, has_prefix, length, if◌then◌else◌,
  missing, precondition, unimplemented,
}
use open_artifact.Shared.Strings.Laws.{bytes_eq_iff, bytes_eq_refl}
use open_artifact.Shared.Maps.{Dict, get, put, remove, get-put, get-remove}
use open_artifact.Store.Files.Complete.{IsReliable}
use open_artifact.Store.Bucket.{
  Bucket, IsLawful, Reply, done, failed, Reading, Attributes, ListObject, is_some,
}

abbrev found : Option Bytes → Reply Bytes
found none = failed missing
found (some v) = done v

abbrev readable : Option Bytes → Reply Reading
readable none = failed missing
readable (some v) = done (record { content = v; broken = none })

abbrev measured : Option Bytes → Reply Attributes
measured none = failed missing
measured (some v) = done (record { size = length v; mod_time = 7 })

abbrev keys_under : Bytes → Dict Bytes → List Bytes
keys_under prefix [] = []
keys_under prefix ((k, v) ∷ d) =
    let rest = keys_under prefix d in if has_prefix prefix k then k ∷ rest else rest

-- a key behind a prefix, as the object or the directory that a delimited listing shows
abbrev shown : Bytes → Bytes → ListObject
shown prefix k = elim (cut b'/' (trim_prefix prefix k)) [
  | none ↦ record { key = k; is_dir = false }
  | some (dir, rest) ↦ record { key = prefix ++ dir ++ (b'/' ∷ []); is_dir = true }
]

abbrev pub write_memory : Bytes → Bytes → Bool → Dict Bytes → Reply (Unit {0}) × Dict Bytes
write_memory k v once d =
    if once && is_some (get d k) then (failed precondition, d) else (done tt, put d k v)

abbrev pub memory : Bucket
memory = record {
  State = Dict Bytes;
  content = get;
  exists = λ k d. (done (is_some (get d k)), d);
  read_all = λ k d. (found (get d k), d);
  new_reader = λ k d. (readable (get d k), d);
  attributes = λ k d. (measured (get d k), d);
  sign = λ k d. (failed unimplemented, d);
  list = λ prefix d. (done (keys_under prefix d), d);
  list_delimited = λ prefix d. (done (map (shown prefix) (keys_under prefix d)), d);
  open_writer = λ k d. (done tt, d);
  stream = λ k v d. (done tt, d);
  abort = λ k d. d;
  write = write_memory;
  delete = λ k d. (done tt, remove d k);
}

found_answer : (o : Option Bytes) {v : Bytes} → found o ≡ done v → o ≡ some v
found_answer none h = absurd (ground arith)
found_answer (some w) h = ground arith

done_injective : {A : Type 0} {a b : A} → done a ≡ done b → a ≡ b
done_injective h = cc

readable_answer :
    (o : Option Bytes) {r : Reading}
    → readable o ≡ done r
    → (rest : Bytes) × (o ≡ some (r.content ++ rest))
      × ((rest ≡ []) ⊎ ((c : Code) × (r.broken ≡ some c)))
readable_answer none h = absurd (cc)
readable_answer (some v) h =
    subst
      (λ (q : Reading).
        (rest : Bytes) × (some v ≡ some (q.content ++ rest))
        × ((rest ≡ []) ⊎ ((c : Code) × (q.broken ≡ some c))))
      (done_injective h) ([], ap some (sym (append-nil v)), inl refl)

found_missing : (o : Option Bytes) → found o ≡ failed missing → o ≡ none
found_missing none h = refl
found_missing (some w) h = absurd (ground arith)

pub memory-IsLawful : IsLawful memory
memory-IsLawful = record {
  exists_frame = λ k j s. refl;
  read_frame = λ k j s. refl;
  reader_frame = λ k j s. refl;
  attributes_frame = λ k j s. refl;
  sign_frame = λ k j s. refl;
  list_frame = λ k j s. refl;
  list_delimited_frame = λ k j s. refl;
  open_frame = λ k j s. refl;
  stream_frame = λ k v j s. refl;
  abort_frame = λ k j s. refl;
  exists_answer = λ k s {v} h. ground arith;
  read_answer = λ k s {v} h. found_answer (get s k) h;
  reader_answer = λ k s {r} h. readable_answer (get s k) h;
  read_missing = λ k s h. found_missing (get s k) h;
  write_frame = λ k v once s j ne. ground (arith, get-put s k j v, bytes_eq_iff k j);
  write_done = λ k v once s h. ground (arith, get-put s k k v, bytes_eq_refl k);
  write_whole = λ k v once s. ground (arith, get-put s k k v, bytes_eq_refl k);
  write_once = λ k v s {x} h. ground (arith, get-put s k k v, bytes_eq_refl k);
  write_refused = λ k v once s h. ground arith;
  delete_frame = λ k s j ne. ground (arith, get-remove s k j, bytes_eq_iff k j);
  delete_done = λ k s h. ground (arith, get-remove s k k, bytes_eq_refl k);
  delete_missing = λ k s h. ground (arith, get-remove s k k, bytes_eq_refl k);
}

pub memory-IsReliable : IsReliable memory
memory-IsReliable = record {
  exists_done = λ k s. refl;
  open_done = λ k s. refl;
  stream_done = λ k v s. refl;
  replace_done = λ k v s. refl;
  create_done = λ k v s free. ground arith;
}
