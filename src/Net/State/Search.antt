-- ===== src/Net/State/Search.antt =====
-- The searches of the allocator: owners, free addresses and free subnets.
use tikovm.Prelude.{
  ℕ, nat_eq, ◌+◌, ◌-◌, ◌≤◌, ◌<◌, ◌≡◌, ◌≢◌, ap, Bool, true, false, not, none, some, [], ◌∷◌, Text,
  text_beq, text_beq_iff, any, Map, get, contains_key, Uniq, find_range, find_range_found,
  find_range-none, arith, Bool-cases, Option-cases, inl, inr,
}
use tikovm.Net.Cidr.{Ipv4Net, size, host, subnet_count}
use tikovm.Net.State.{ProjectState, owns_vm, lowest_free_ip, index_used, free_index, find_owner}

value_listed :
    (ip : ℕ) (v : Text) (m : Map ℕ Text) → get ip m ≡ some v → any (λ e. text_beq e.1 v) m ≡ true
unfolding get
value_listed ip v [] h = cc
value_listed ip v ((j, w) ∷ m) h = ground (arith, value_listed ip v m, text_beq_iff w v)

pub owns_of_get :
    (p : ProjectState) (ip : ℕ) (v : Text) → get ip p.vms ≡ some v → owns_vm p v ≡ true
unfolding owns_vm
owns_of_get p ip v h = value_listed ip v p.vms h

same_key : (i j : ℕ) (m : Map ℕ Text) → j ≡ i → get j m ≡ get i m
same_key i j m e = ap (λ k. get k m) e

pub get_of_listed :
    (v : Text) (m : Map ℕ Text)
    → Uniq m
    → any (λ e. text_beq e.1 v) m ≡ true
    → (ip : ℕ) × (get ip m ≡ some v)
unfolding get
get_of_listed v [] u h = cc
get_of_listed v ((j, w) ∷ m) u h = elim (Bool-cases (text_beq w v)) [
  | inl same ↦ (j, ground (arith, text_beq_iff w v))
  | inr other ↦
      let (ip, found) = get_of_listed v m u.1 (ground (arith, other)) in
      (ip, ground (arith, found, u.0, same_key ip j m))
]

abbrev free_host : Ipv4Net → Map ℕ Text → ℕ → Bool
free_host sub used idx = not (contains_key (host sub idx) used)

-- The lowest free address is that of a usable host, it is free, and no lower host is.
pub lowest_free_ip-found :
    (sub : Ipv4Net) (used : Map ℕ Text) (ip : ℕ)
    → lowest_free_ip sub used ≡ some ip
    → (k : ℕ) × (2 ≤ k)
      × (k + 1 < size sub)
      × (ip ≡ host sub k)
      × (get ip used ≡ none)
      × ((j : ℕ) → 2 ≤ j → j < k → contains_key (host sub j) used ≡ true)
unfolding lowest_free_ip
lowest_free_ip-found sub used ip h =
    elim (Option-cases (find_range (size sub - 1 - 2) 2 (free_host sub used))) [
      | inl e ↦ ground (arith, e)
      | inr (k, e) ↦
          let (low, high, free, below) =
            find_range_found (size sub - 1 - 2) 2 (free_host sub used) k e in
          (
            k,
            low,
            omega arith,
            ground (arith, e),
            ground (arith, free),
            λ j a b. ground (arith, below j a b),
          )
    ]

pub lowest_free_ip-none :
    (sub : Ipv4Net) (used : Map ℕ Text)
    → lowest_free_ip sub used ≡ none
    → (j : ℕ) → 2 ≤ j
    → j + 1 < size sub
    → contains_key (host sub j) used ≡ true
unfolding lowest_free_ip
lowest_free_ip-none sub used h j a b =
    elim (Option-cases (find_range (size sub - 1 - 2) 2 (free_host sub used))) [
      | inl e ↦
          ground
            (arith, find_range-none (size sub - 1 - 2) 2 (free_host sub used) e j a (omega arith))
      | inr (k, e) ↦ ground (arith, e)
    ]

not_used :
    (pid : ℕ) (p : ProjectState) (i : ℕ) (m : Map ℕ ProjectState)
    → index_used m i ≡ false
    → get pid m ≡ some p
    → p.subnet_index ≢ i
unfolding get
not_used pid p i [] h e = cc
not_used pid p i ((j, q) ∷ m) h e = ground (arith, not_used pid p i m)

-- A free index lies below the count, and no project has it.
pub free_index-found :
    (m : Map ℕ ProjectState) (supernet : Ipv4Net) (prefix i : ℕ)
    → free_index m supernet prefix ≡ some i
    → (i < subnet_count supernet prefix)
      × ((pid : ℕ) (p : ProjectState) → get pid m ≡ some p → p.subnet_index ≢ i)
unfolding free_index
free_index-found m supernet prefix i h =
    let (low, high, free, below) =
      find_range_found (subnet_count supernet prefix) 0 (λ j. not (index_used m j)) i h in
    (omega arith, λ pid p e. not_used pid p i m (ground (arith, free)) e)

same_project : (i j : ℕ) (m : Map ℕ ProjectState) → j ≡ i → get j m ≡ get i m
same_project i j m e = ap (λ k. get k m) e

pub find_owner-found :
    (vm_id : Text) (m : Map ℕ ProjectState) (pid : ℕ)
    → Uniq m
    → find_owner vm_id m ≡ some pid
    → (p : ProjectState) × (get pid m ≡ some p) × (owns_vm p vm_id ≡ true)
unfolding find_owner get
find_owner-found vm_id [] pid u h = cc
find_owner-found vm_id ((j, q) ∷ m) pid u h = elim (Bool-cases (owns_vm q vm_id)) [
  | inl owns ↦ (q, ground (arith, owns), owns)
  | inr not_owns ↦
      let (p, found, owns) = find_owner-found vm_id m pid u.1 (ground (arith, not_owns)) in
      (p, ground (arith, found, u.0, same_project pid j m), owns)
]

pub find_owner-none :
    (vm_id : Text) (m : Map ℕ ProjectState)
    → find_owner vm_id m ≡ none
    → (pid : ℕ) (p : ProjectState) → get pid m ≡ some p
    → owns_vm p vm_id ≡ false
unfolding find_owner get
find_owner-none vm_id [] h pid p e = cc
find_owner-none vm_id ((j, q) ∷ m) h pid p e =
    let rest = find_owner-none vm_id m (ground arith) pid p in ground (arith, rest)
