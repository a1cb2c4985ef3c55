-- ===== src/Routing/Router.antt =====
-- lib/registry.js, class FsRouter: one decision for a path.
use shared_memory_fs.Prelude.{
  Bool, false, true, ◌&&◌, ◌||◌, not, [], ◌∷◌, ◌++◌, Option, none, some, ◌==◌, nat_eq,
  if◌then◌else◌,
}
use shared_memory_fs.Prelude.JsMap
use shared_memory_fs.Prelude.Text.{Str, str_eq}
use shared_memory_fs.Routing.Keys.{slash}
use shared_memory_fs.Routing.Places.{
  Place, Provider, node_default, FsDomain, denies, to_disk, unset, indexed, is_sea, visible, cached,
  prepared, is_directory,
}
use shared_memory_fs.Routing.Paths.{
  NodePath, PlaceRegistry, Route, elsewhere, at_root, unmanaged, owned_by, route, encloses,
  names_directory,
}

pub data Code : Type 0 where
  eacces : Code
  erofs : Code
  enotdir : Code

pub data Decision : Type 0 where
  passthrough : Decision
  root : Decision
  unsupported : Decision
  crossing : Decision
  deny : Code → Decision
  file : Place → Str → Decision
  dir : Place → Str → Decision
  disk : Place → Str → Decision
  store : Place → Str → Decision
  canonical : Place → Str → Decision

pub record Router : Type 0 where
  pub registry : PlaceRegistry
  pub strict : Bool

abbrev pub by_mode : Bool → Decision
by_mode strict = if strict then deny eacces else passthrough

module _ (os : NodePath) (file_ext : Str → Str) where
  -- `#miss`
  unfoldable pub miss : Bool → Place → FsDomain → Str → Decision
  miss strict p fs key = elim fs.fallback [
    | denies ↦ deny eacces
    | to_disk ↦ if not strict || not (cached file_ext p key) then disk p key else by_mode strict
    | unset ↦ by_mode strict
  ]

  -- A path that no visible file has.
  unfoldable pub read_other : Bool → Place → FsDomain → Str → Decision
  unfolding miss
  read_other strict p fs key = if is_directory p key then dir p key else miss strict p fs key

  unfoldable pub read_indexed : Bool → Place → FsDomain → Str → Str → Decision
  unfolding read_other
  read_indexed strict p fs key file_path = elim (JsMap.get p.files.entries key) [
    | none ↦ read_other strict p fs key
    | some version ↦
        if visible file_ext p key
        then (if names_directory os file_path
            then deny enotdir
            else elim version.bytes [ none ↦ passthrough | some bytes ↦ file p key ])
        else read_other strict p fs key
  ]

  unfoldable pub read_route : Bool → Str → Route → Decision
  unfolding read_indexed
  read_route strict file_path elsewhere = passthrough
  read_route strict file_path at_root = if strict then root else passthrough
  read_route strict file_path unmanaged = by_mode strict
  read_route strict file_path (owned_by p key) = elim p.fs [
    | none ↦ by_mode strict
    | some fs ↦ if indexed p.provider then read_indexed strict p fs key file_path else passthrough
  ]

  unfoldable pub read : Router → Str → Decision
  unfolding read_route
  read r file_path = read_route r.strict file_path (route os r.registry file_path)

  abbrev is_node_default : Provider → Bool
  is_node_default node_default = true
  is_node_default _ = false

  abbrev is_root_key : Str → Bool
  is_root_key [] = true
  is_root_key (c ∷ s) = false

  unfoldable pub mutate_place : Place → FsDomain → Str → Str → Decision
  mutate_place p fs key file_path =
      if is_node_default p.provider
      then passthrough
      else if not fs.writable
      then deny erofs
      else if p.is_virtual
      then store p (
          key ++ (if not (is_root_key key) && names_directory os file_path then slash ∷ [] else []))
      else passthrough

  unfoldable pub mutate_route : Bool → Str → Route → Decision
  unfolding mutate_place
  mutate_route strict file_path elsewhere = passthrough
  mutate_route strict file_path at_root = by_mode strict
  mutate_route strict file_path unmanaged = by_mode strict
  mutate_route strict file_path (owned_by p key) = elim p.fs [
    | none ↦ by_mode strict
    | some fs ↦ mutate_place p fs key file_path
  ]

  unfoldable pub mutate : Router → Str → Decision
  unfolding mutate_route
  mutate r file_path = mutate_route r.strict file_path (route os r.registry file_path)

  -- `#indexed`: the name of the place, which is registered under it alone.
  unfoldable pub indexed_place : Router → Str → Option Str
  indexed_place r file_path = elim (route os r.registry file_path) [
    | owned_by p key ↦ if indexed p.provider then some p.name else none
    | _ ↦ none
  ]

  abbrev pub managed : Router → Str → Bool
  managed r file_path = elim (indexed_place r file_path) [ none ↦ false | some n ↦ true ]

  -- `copy` of a read decision, without `recursive`.
  unfoldable pub copy_source : Decision → Decision
  copy_source (deny code) = deny code
  copy_source (dir p key) = unsupported
  copy_source root = unsupported
  copy_source (file p key) =
      if not p.is_virtual && not (is_sea p.provider)
      then passthrough
      else if prepared file_ext p key
      then unsupported
      else canonical p key
  copy_source _ = passthrough

  unfoldable pub copy : Router → Str → Bool → Decision
  unfolding read copy_source
  copy r file_path recursive = elim (read r file_path) [
    | deny code ↦ deny code
    | d ↦
        if recursive
        then (if managed r file_path || encloses os r.registry file_path
            then unsupported
            else passthrough)
        else copy_source d
  ]

  abbrev same_place : Option Str → Option Str → Bool
  same_place none none = true
  same_place (some a) (some b) = a == b
  same_place _ _ = false

  unfoldable pub rename : Router → Str → Str → Decision
  rename r from_path to_path = elim (read r from_path) [
    | deny code ↦ deny code
    | _ ↦
        if encloses os r.registry from_path
        then unsupported
        else if same_place (indexed_place r from_path) (indexed_place r to_path)
        then passthrough
        else crossing
  ]

  -- `link` where neither name is denied.
  unfoldable pub link_source : Bool → Decision → Decision
  link_source false passthrough = passthrough
  link_source _ _ = unsupported

  unfoldable pub link : Router → Str → Str → Decision
  unfolding link_source mutate
  link r from_path to_path = elim (read r from_path) [
    | deny code ↦ deny code
    | d ↦ elim (mutate r to_path) [
      | deny code ↦ deny code
      | _ ↦ link_source (managed r from_path || managed r to_path) d
    ]
  ]
