-- ===== src/Tests/Guest.antt =====
-- Runs of the path translation (fake/path_redirect.cpp, fake/path_resolver.cpp) and of the state.
use virtualaosp.Base.{
  ℕ, ◌<◌, true, some, [], ◌∷◌, ◌++◌, ◌≡◌, ◌≢◌, refl, ◌⊎◌, arith, length, take, replicate, Bytes,
  codes, is_absolute, strip_prefix, at_boundary,
}
use virtualaosp.Base.Int.{pos}
use virtualaosp.Guest.State.{State}
use virtualaosp.Guest.State.Root.{IsRoot}
use virtualaosp.Guest.Resolver.{Resolver, unready, alias_table, find_alias, pop_slash}
use virtualaosp.Guest.Redirect.{
  ExcludeTable, empty_table, Engine, passthrough, mapped, overflow, bypasses, map_path, unmap_path,
  set_excluded_prefixes, starts_with_rootfs,
}
use virtualaosp.Guest.Redirect.Confine.{IsActive, guest_view}
use virtualaosp.Guest.Redirect.RoundTrip.{map_path_confined, unmap-map_path, map_path_too_long}

abbrev pub rootfs : Bytes
rootfs = codes "/data/rootfs"

abbrev pub active_state : State
active_state = record { enabled = true; root = rootfs; fake_uid = pos 1000; fake_gid = pos 0 }

-- An active engine with no exclusions and no resolver.
abbrev pub engine : Engine
engine = record { state = active_state; excludes = empty_table; resolver = unready }

abbrev ready : Resolver
ready = record { initialized = true; base = rootfs; prefixes = alias_table rootfs }

abbrev aliasing : Engine
aliasing = record { state = active_state; excludes = empty_table; resolver = ready }

pub rootfs-IsRoot : IsRoot rootfs
unfolding is_absolute
rootfs-IsRoot = record { absolute = refl; fits = omega arith; trimmed = λ h. ground arith }

pub engine-IsActive : IsActive engine
engine-IsActive = record {
  active = refl;
  rooted = rootfs-IsRoot;
  base_is = λ h. ground arith;
  table_is = λ h. ground arith;
}

aliasing-IsActive : IsActive aliasing
unfolding pop_slash
aliasing-IsActive = record {
  active = refl;
  rooted = rootfs-IsRoot;
  base_is = λ h. refl;
  table_is = λ h. refl;
}

maps_to_sandbox :
    map_path engine (some (codes "/system/lib")) 8192 ≡ mapped (codes "/data/rootfs/system/lib")
unfolding map_path
maps_to_sandbox = refl

-- The cases of test_path_redirect.cpp.
leaves_proc : map_path engine (some (codes "/proc/self/maps")) 8192 ≡ passthrough
unfolding map_path
leaves_proc = refl

maps_processor :
    map_path engine (some (codes "/processor_info")) 8192
    ≡ mapped (codes "/data/rootfs/processor_info")
unfolding map_path
maps_processor = refl

leaves_relative : map_path engine (some (codes "foo")) 8192 ≡ passthrough
unfolding map_path
leaves_relative = refl

unmaps_root : unmap_path active_state rootfs 8192 ≡ some (codes "/")
unfolding unmap_path
unmaps_root = refl

map_path_confined_example :
    (starts_with_rootfs active_state (codes "/data/rootfs/system/etc/hosts") ≡ true)
    × (length (codes "/data/rootfs/system/etc/hosts") < 8192)
    × ((n : ℕ) → map_path aliasing (some (codes "/data/rootfs/system/etc/hosts")) n ≡ passthrough)
map_path_confined_example =
    map_path_confined aliasing (codes "/etc/hosts") 8192 aliasing-IsActive (omega arith)
      (unfold map_path alias_table in refl)

unmap-map_path_example :
    (map_path aliasing (some (codes "/etc/hosts")) 8192
      ≡ mapped (rootfs ++ guest_view aliasing (codes "/etc/hosts")))
    × (unmap_path active_state (rootfs ++ guest_view aliasing (codes "/etc/hosts")) 8192
        ≡ some (guest_view aliasing (codes "/etc/hosts")))
unmap-map_path_example =
    unmap-map_path aliasing (codes "/etc/hosts") 8192 aliasing-IsActive (unfold is_absolute in refl)
      (unfold bypasses in refl)
      (unfold guest_view find_alias alias_table strip_prefix at_boundary in omega arith)

map_path_too_long_example :
    ((guest_view aliasing (codes "/etc/hosts") ≡ codes "/etc/hosts")
      × (map_path aliasing (some (codes "/etc/hosts")) 20 ≡ overflow))
    ⊎ ((map_path aliasing (some (codes "/etc/hosts")) 20
          ≡ mapped (take 19 (rootfs ++ guest_view aliasing (codes "/etc/hosts"))))
        × (take 19 (rootfs ++ guest_view aliasing (codes "/etc/hosts"))
            ≢ rootfs ++ guest_view aliasing (codes "/etc/hosts")))
map_path_too_long_example =
    map_path_too_long aliasing (codes "/etc/hosts") 20 aliasing-IsActive
      (unfold is_absolute in refl) (unfold bypasses in refl)
      (unfold guest_view find_alias alias_table strip_prefix at_boundary in omega arith)
      (omega arith)

-- Two rows in use.
abbrev two_rows : ExcludeTable
two_rows = record { entries = codes "/dev/ashmem" ∷ codes "/tmp" ∷ replicate 14 []; count = 2 }

abbrev excluding : Engine
excluding = record { state = active_state; excludes = two_rows; resolver = unready }

excludes_both : set_excluded_prefixes (some (codes "/dev/ashmem::/tmp")) empty_table ≡ two_rows
unfolding set_excluded_prefixes
excludes_both = refl

abbrev long_root : Bytes
long_root = replicate 4096 b'/' ++ codes "x"
