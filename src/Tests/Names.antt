-- ===== src/Tests/Names.antt =====
-- The registry on concrete inputs.
use resilience4py.Prelude.{ℕ, ◌≡◌, refl, none, some}
use resilience4py.Registry.{Registry, new_registry, get_or_create, collect}
use resilience4py.Registry.Instances.{
  Elsewheres, gets, collects, get_or_create-same, Reach, begun, then_step, got, lookup_apart,
}
use resilience4py.Registry.Instances

-- The default configuration is 50; 3 and 4 are names.
abbrev start : Registry ℕ
start = new_registry 50

abbrev first : Registry ℕ
first = (get_or_create 3 (some 60) start).1

abbrev second : Registry ℕ
second = (get_or_create 4 none first).1

abbrev last : Registry ℕ
last = collect 4 second

abbrev since : Elsewheres 3 first last
since = Instances.next (Instances.next Instances.here (gets 4 none first)) (collects 4 second refl)

get_or_create-same_example :
    get_or_create 3 (some 70) last ≡ ((get_or_create 3 (some 60) start).0, last)
get_or_create-same_example = get_or_create-same 3 (some 60) (some 70) start last since
