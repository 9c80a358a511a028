-- ===== src/Namespace/Catalog.antt =====
-- pkg/namespace/store.go: the catalog of namespaces, which owns their metadata objects.
pub mod Stored
use open_artifact.Shared.{
  Bool, true, false, not, ◌||◌, Option, none, some, List, [], ◌∷◌, ◌++◌, Bytes, codes, is_empty,
  has_prefix, trim, trim_prefix, trim_suffix, sort_strings, bytes_le, if◌then◌else◌, ◌==◌, Error,
  namespace_not_found, not_empty, malformed, nil_argument, backend, Code, missing, Result, ok, err,
}
use open_artifact.Store.Io.{Io, pure, raise, unless, ◌>>=◌, ◌>>◌}
use open_artifact.Store.Bucket.{Bucket, Reply, done, failed, ListObject}
use open_artifact.Store.Paths.{root}
use open_artifact.Namespace.{Spec}
use open_artifact.Namespace.Validate.{
  Checks, validate_name, normalize_for_write, normalize_for_read,
}

abbrev pub meta_name : Bytes
meta_name = codes ".meta"

pub record Namespace : Type 0 where
  pub name : Bytes
  pub spec : Spec

-- What the catalog takes from outside: the bucket, the JSON form of a spec, the checks of its
-- fields, and the type of the state that the change hooks act on.
pub record Platform : Type 1 where
  pub bucket : Bucket
  pub encode_spec : Spec → Option Bytes
  pub decode_spec : Bytes → Option Spec
  pub checks : Checks
  pub Client : Type 0

-- `client` is the state of those that registered a hook.
pub record World (p : Platform) : Type 0 where
  pub disk : p.bucket.State
  pub client : p.Client

unfoldable pub root_prefix : Bytes → Bytes
root_prefix bucket_prefix =
    let trimmed = trim (λ c. c == b'/') bucket_prefix in
    if is_empty trimmed then root else root ++ trimmed ++ codes "/"

-- namespace.Store
pub record Catalog (p : Platform) : Type 0 where
  pub root : Bytes
  pub hooks : List (Bytes → p.Client → p.Client)

unfoldable pub load_error : Code → Error
load_error missing = namespace_not_found
load_error c = backend c

module _ {A : Type 0} where
  abbrev pub answer : (Code → Error) → Reply A → Result A
  answer f (done a) = ok a
  answer f (failed c) = err (f c)

module _ (p : Platform) where
  unfoldable pub on_disk :
      {A : Type 0} → (Code → Error) → (p.bucket.State → Reply A × p.bucket.State) → Io (World p) A
  on_disk f call w = let (r, d) = call w.disk in (answer f r, record w { disk = d })

  unfoldable pub run_hooks : List (Bytes → p.Client → p.Client) → Bytes → p.Client → p.Client
  run_hooks [] name c = c
  run_hooks (fn ∷ fns) name c = run_hooks fns name (fn name c)

  unfoldable pub or_malformed : {A : Type 0} → Option A → Io (World p) A
  or_malformed none = raise malformed
  or_malformed (some a) = pure a

  unfoldable pub given : Option Namespace → Io (World p) Namespace
  given none = raise nil_argument
  given (some ns) = pure ns

  abbrev pub lift : {A : Type 0} → Result A → Io (World p) A
  lift r w = (r, w)

  module _ (s : Catalog p) where
    unfoldable pub ns_prefix : Bytes → Bytes
    ns_prefix name = s.root ++ name ++ codes "/"

    unfoldable pub ns_meta_path : Bytes → Bytes
    unfolding ns_prefix
    ns_meta_path name = ns_prefix name ++ meta_name

    unfoldable pub notify : Bytes → Io (World p) (Unit {0})
    unfolding run_hooks
    notify name w = (ok tt, record w { client = run_hooks s.hooks name w.client })

    -- Put
    unfoldable pub put : Option Namespace → Io (World p) Namespace
    unfolding given or_malformed on_disk notify
    put n = do
      ns ← given n
      unless (validate_name ns.name)
      spec ← lift (normalize_for_write p.checks ns.spec)
      body ← or_malformed (p.encode_spec spec)
      on_disk backend (p.bucket.write (ns_meta_path ns.name) body false)
      notify ns.name
      pure (record { name = ns.name; spec = spec })

    -- load
    unfoldable pub load : Bytes → Io (World p) Namespace
    unfolding or_malformed on_disk load_error
    load name = do
      raw ← on_disk load_error (p.bucket.read_all (ns_meta_path name))
      stored ← or_malformed (p.decode_spec raw)
      spec ← lift (normalize_for_read stored)
      pure (record { name = name; spec = spec })

    -- Get
    unfoldable pub get : Bytes → Io (World p) Namespace
    get name = do unless (validate_name name); load name

    -- the names of the directories of a listing that are not Store-owned
    child_dirs : Bytes → List ListObject → List Bytes
    child_dirs prefix [] = []
    child_dirs prefix (obj ∷ objs) =
        let rest = child_dirs prefix objs in
        let name = trim_suffix (codes "/") (trim_prefix prefix obj.key) in
        if not obj.is_dir || is_empty name || has_prefix (codes ".") name then rest else name ∷ rest

    -- listChildDirs
    unfoldable pub list_child_dirs : Bytes → Io (World p) (List Bytes)
    unfolding child_dirs on_disk
    list_child_dirs prefix = do
      objs ← on_disk backend (p.bucket.list_delimited prefix)
      pure (sort_strings (child_dirs prefix objs))

    -- one step of the loop of List: a directory without metadata is skipped
    collect : Result Namespace → Result (List Namespace) → Result (List Namespace)
    collect (ok ns) (ok rest) = ok (ns ∷ rest)
    collect (ok ns) (err e) = err e
    collect (err namespace_not_found) rest = rest
    collect (err e) rest = err e

    insert_by_name : Namespace → List Namespace → List Namespace
    unfolding bytes_le
    insert_by_name n [] = n ∷ []
    insert_by_name n (m ∷ ms) =
        let rest = insert_by_name n ms in if bytes_le n.name m.name then n ∷ m ∷ ms else m ∷ rest

    sort_by_name : List Namespace → List Namespace
    unfolding insert_by_name
    sort_by_name [] = []
    sort_by_name (n ∷ ns) = insert_by_name n (sort_by_name ns)

    is_fatal : Result Namespace → Bool
    is_fatal (ok ns) = false
    is_fatal (err namespace_not_found) = false
    is_fatal (err e) = true

    load_all : List Bytes → Io (World p) (List Namespace)
    unfolding collect is_fatal
    load_all [] w = (ok [], w)
    load_all (name ∷ names) w =
        let (r, w') = load name w in
        let rest = load_all names w' in
        if is_fatal r then (collect r (ok []), w') else (collect r rest.0, rest.1)

    -- List
    unfoldable pub list : Io (World p) (List Namespace)
    unfolding load_all sort_by_name
    list = do names ← list_child_dirs s.root; out ← load_all names; pure (sort_by_name out)

    -- Ping
    unfoldable pub ping : Io (World p) (Unit {0})
    ping = do names ← list_child_dirs s.root; pure tt

    -- the formats of a namespace, up to one that has a child
    all_empty : Bytes → List Bytes → Io (World p) Bool
    all_empty name [] = pure true
    all_empty name (fmt_dir ∷ dirs) =
        let rest = all_empty name dirs in
        do
          pkgs ← list_child_dirs (ns_prefix name ++ fmt_dir ++ codes "/")
          if is_empty pkgs then rest else pure false

    -- isEmpty
    unfoldable pub is_empty_namespace : Bytes → Io (World p) Bool
    unfolding all_empty
    is_empty_namespace name = do formats ← list_child_dirs (ns_prefix name); all_empty name formats

    -- Delete
    unfoldable pub delete : Bytes → Io (World p) (Unit {0})
    unfolding notify on_disk
    delete name = do
      unless (validate_name name)
      ns ← load name
      empty ← is_empty_namespace name
      if empty then pure tt else raise not_empty
      on_disk backend (p.bucket.delete (ns_meta_path name))
      notify name
