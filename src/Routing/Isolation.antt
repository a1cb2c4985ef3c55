-- ===== src/Routing/Isolation.antt =====
-- What strict mode lets through to the disk, for reads and for mutations.
use shared_memory_fs.Prelude.{
  Bool, false, true, ◌++◌, none, some, ◌≡◌, inl, inr, arith, refl, Bool-cases, Option-cases, nat_eq,
  subst,
}
use shared_memory_fs.Prelude.JsMap
use shared_memory_fs.Prelude.JsMap.{is_some}
use shared_memory_fs.Prelude.JsSet.{contains}
use shared_memory_fs.Prelude.Text.{Str, str_eq}
use shared_memory_fs.Routing.Keys.{slash, before, from, before-from, before-clean}
use shared_memory_fs.Routing.Places.{
  Version, Place, Provider, sab, in_map, sea, on_disk, FsDomain, node_default, indexed, visible,
  Fallback, denies, to_disk, unset, cached, is_directory,
}
use shared_memory_fs.Routing.Paths.{
  NodePath, PlaceRegistry, Route, elsewhere, at_root, unmanaged, owned_by, route, route_key, to_key,
  outside,
}
use shared_memory_fs.Routing.Router.{
  passthrough, disk, Decision, Router, read, read_route, read_indexed, read_other, miss, mutate,
  mutate_route, mutate_place,
}

module _ (os : NodePath) (file_ext : Str → Str) where
  -- The routes that reads take to node:fs in strict mode.
  pub data Passes : Route → Type 0 where
    not_ours : Passes elsewhere
    of_node :
        (p : Place) (key : Str)
        → is_some p.fs ≡ true
        → indexed p.provider ≡ false
        → Passes (owned_by p key)
    kept_on_disk :
        (p : Place) (key : Str) (v : Version)
        → JsMap.get p.files.entries key ≡ some v
        → v.bytes ≡ none
        → visible file_ext p key ≡ true
        → Passes (owned_by p key)
    fell_back :
        (p : Place) (key : Str) (fs : FsDomain)
        → p.fs ≡ some fs
        → fs.fallback ≡ to_disk
        → indexed p.provider ≡ true
        → cached file_ext p key ≡ false
        → is_directory p key ≡ false
        → Passes (owned_by p key)

  -- A decision that leaves the read to node:fs: the call as it is, or the original function on the
  -- place's own directory.
  abbrev pub to_node : Decision → Bool
  to_node passthrough = true
  to_node (disk p key) = true
  to_node d = false

  miss-Passes :
      (p : Place) (fs : FsDomain) (key : Str)
      → p.fs ≡ some fs
      → indexed p.provider ≡ true
      → is_directory p key ≡ false
      → to_node (miss os file_ext true p fs key) ≡ true
      → Passes (owned_by p key)
  unfolding miss
  miss-Passes p fs key e i nd h = by_fallback fs.fallback refl
    where
      by_fallback : (f : Fallback) → fs.fallback ≡ f → Passes (owned_by p key)
      by_fallback denies q = absurd (ground arith)
      by_fallback to_disk q = elim (Bool-cases (cached file_ext p key)) [
        | inl c ↦ absurd (ground arith)
        | inr c ↦ fell_back p key fs e q i c nd
      ]
      by_fallback unset q = absurd (ground arith)

  read_other-Passes :
      (p : Place) (fs : FsDomain) (key : Str)
      → p.fs ≡ some fs
      → indexed p.provider ≡ true
      → to_node (read_other os file_ext true p fs key) ≡ true
      → Passes (owned_by p key)
  unfolding read_other
  read_other-Passes p fs key e i h = elim (Bool-cases (is_directory p key)) [
    | inl d ↦ absurd (ground arith)
    | inr nd ↦ miss-Passes p fs key e i nd (ground arith)
  ]

  read_indexed-Passes :
      (p : Place) (fs : FsDomain) (key file_path : Str)
      → p.fs ≡ some fs
      → indexed p.provider ≡ true
      → to_node (read_indexed os file_ext true p fs key file_path) ≡ true
      → Passes (owned_by p key)
  unfolding read_indexed
  read_indexed-Passes p fs key file_path g i h =
      elim (Option-cases (JsMap.get p.files.entries key)) [
        | inl e ↦ read_other-Passes p fs key g i (ground arith)
        | inr (v, e) ↦ elim (Bool-cases (visible file_ext p key)) [
          | inl seen ↦ kept_on_disk p key v e (ground arith) seen
          | inr hidden ↦ read_other-Passes p fs key g i (ground arith)
        ]
      ]

  read_route-Passes :
      (file_path : Str) (t : Route)
      → to_node (read_route os file_ext true file_path t) ≡ true
      → Passes t
  unfolding read_route
  read_route-Passes file_path elsewhere h = not_ours
  read_route-Passes file_path at_root h = absurd (ground arith)
  read_route-Passes file_path unmanaged h = absurd (ground arith)
  read_route-Passes file_path (owned_by p key) h = elim (Option-cases p.fs) [
    | inl e ↦ absurd (ground arith)
    | inr (fs, e) ↦ elim (Bool-cases (indexed p.provider)) [
      | inl i ↦ read_indexed-Passes p fs key file_path e i (ground arith)
      | inr i ↦ of_node p key (ground arith) i
    ]
  ]

  -- In strict mode a read reaches node:fs, by passing through or by the fallback to disk, only for
  -- a path outside appRoot, for a place with an fs domain whose provider is not indexed, for a
  -- published key, visible to the fs domain, whose entry is kept on disk, or for a key that is no
  -- directory and that the place, whose fs domain falls back to disk, does not cache.
  pub read-Passes :
      (r : Router) (file_path : Str)
      → r.strict ≡ true
      → to_node (read os file_ext r file_path) ≡ true
      → Passes (route os r.registry file_path)
  unfolding read
  read-Passes r file_path s h =
      let t = route os r.registry file_path in
      read_route-Passes file_path t
        (subst (λ strict. to_node (read_route os file_ext strict file_path t) ≡ true) s h)

  -- The routes whose mutations node:fs may serve in strict mode.
  pub data Writes : Route → Type 0 where
    not_ours : Writes elsewhere
    of_node :
        (p : Place) (key : Str)
        → is_some p.fs ≡ true
        → p.provider ≡ node_default
        → Writes (owned_by p key)
    watched :
        (p : Place) (key : Str) (fs : FsDomain)
        → p.fs ≡ some fs
        → fs.writable ≡ true
        → p.is_virtual ≡ false
        → Writes (owned_by p key)

  mutate_route-Writes :
      (file_path : Str) (t : Route)
      → mutate_route os file_ext true file_path t ≡ passthrough
      → Writes t
  unfolding mutate_route mutate_place
  mutate_route-Writes file_path elsewhere h = Writes.not_ours
  mutate_route-Writes file_path at_root h = absurd (ground arith)
  mutate_route-Writes file_path unmanaged h = absurd (ground arith)
  mutate_route-Writes file_path (owned_by p key) h = elim (Option-cases p.fs) [
    | inl e ↦ absurd (ground arith)
    | inr (fs, e) ↦ by_provider p.provider refl fs e
  ]
    where
      by_provider :
          (v : Provider)
          → p.provider ≡ v
          → (fs : FsDomain) → p.fs ≡ some fs
          → Writes (owned_by p key)
      by_provider node_default q fs e = Writes.of_node p key (ground arith) q
      by_provider sab q fs e = watched p key fs e (ground arith) (ground arith)
      by_provider in_map q fs e = watched p key fs e (ground arith) (ground arith)
      by_provider sea q fs e = watched p key fs e (ground arith) (ground arith)
      by_provider on_disk q fs e = watched p key fs e (ground arith) (ground arith)

  -- In strict mode a mutation passes through to node:fs only for a path outside appRoot, for a
  -- node-default place with an fs domain, or for a place that is writable and not virtual.
  pub mutate-Writes :
      (r : Router) (file_path : Str)
      → r.strict ≡ true
      → mutate os file_ext r file_path ≡ passthrough
      → Writes (route os r.registry file_path)
  unfolding mutate
  mutate-Writes r file_path s h =
      mutate_route-Writes file_path (route os r.registry file_path) (rw (← s) h)

-- A key of a route: the path below appRoot is the mount, which has no slash, followed by the key.
pub record Splits (os : NodePath) (r : PlaceRegistry) (file_path : Str) (p : Place) (key : Str)
    : Type 0 where
  pub mount : Str
  pub whole : mount ++ key ≡ to_key os (os.relative r.app_root (os.resolve file_path))
  pub one_segment : contains mount slash ≡ false
  pub registered : JsMap.get r.places mount ≡ some p
  pub inside : outside os (os.relative r.app_root (os.resolve file_path)) ≡ false

-- A path that is routed to a place and a key is not outside appRoot, and its relative path, with
-- forward slashes, is one segment, under which the place is registered, followed by the key.
pub route-Splits :
    (os : NodePath) (r : PlaceRegistry) (file_path : Str) (p : Place) (key : Str)
    → route os r file_path ≡ owned_by p key
    → Splits os r file_path p key
unfolding route
route-Splits os r file_path p key h =
    let n = to_key os (os.relative r.app_root (os.resolve file_path)) in
    let e = by_key n (ground arith) in
    record {
      mount = before slash n;
      whole = rw e.1 (before-from slash n);
      one_segment = before-clean slash n;
      registered = e.0;
      inside = ground arith;
    }
  where
    by_key :
        (n : Str)
        → route_key r n ≡ owned_by p key
        → (JsMap.get r.places (before slash n) ≡ some p) × (key ≡ from slash n)
    by_key n e = unfold route_key in (ground arith, ground arith)
