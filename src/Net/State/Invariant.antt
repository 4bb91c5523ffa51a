-- ===== src/Net/State/Invariant.antt =====
-- What every reachable allocation state satisfies, and that each operation keeps it.
use tikovm.Prelude.{
  ℕ, nat_eq, is_empty, insert_cases, retain_cases, insert-not_empty, ◌⊎◌, ◌+◌, ◌-◌, ◌≤◌, ◌<◌, ◌^◌,
  ◌≡◌, ◌≢◌, ap, sym, subst, ◌∙◌, false, some, ◌++◌, Text, show_decimal, get, insert, remove, Uniq,
  get-remove, insert-Uniq, remove-Uniq, retain-Uniq, arith, Bool-cases, inl, inr,
}
use tikovm.Net.{bridge_prefix}
use tikovm.Net.Cidr.{Ipv4Net, host, subnet, subnet_count}
use tikovm.Net.State.{ProjectState, NetState, empty, owns_vm, remove_vm, with_vm, drop_vm}
use tikovm.Net.State.Search.{owns_of_get}

-- The address of a host that is neither the network, nor the gateway, nor the broadcast address.
abbrev pub Usable : Ipv4Net → ℕ → ℕ → ℕ → Type 0
Usable supernet prefix index ip =
    (k : ℕ) × (2 ≤ k) × (k + 1 < 2 ^ (32 - prefix)) × (ip ≡ host (subnet supernet index prefix) k)

module _ (supernet : Ipv4Net) (prefix : ℕ) where
  pub record IsProject (pid : ℕ) (p : ProjectState) : Type 0 where
    pub slot : p.subnet_index < subnet_count supernet prefix
    pub named : p.bridge ≡ bridge_prefix ++ show_decimal pid
    pub routed : p.gateway ≡ host (subnet supernet p.subnet_index prefix) 1
    pub uniq : Uniq p.vms
    pub occupied : is_empty p.vms ≡ false
    pub placed :
        (ip : ℕ) (v : Text) → get ip p.vms ≡ some v → Usable supernet prefix p.subnet_index ip
    pub single : (ip ip' : ℕ) (v : Text) → get ip p.vms ≡ some v → get ip' p.vms ≡ some v → ip ≡ ip'

  -- Every project is well formed, and no two have one subnet.
  pub record Inv (st : NetState) : Type 0 where
    pub distinct : Uniq st.projects
    pub each : (pid : ℕ) (p : ProjectState) → get pid st.projects ≡ some p → IsProject pid p
    pub apart :
        (pid pid' : ℕ) (p p' : ProjectState)
        → get pid st.projects ≡ some p
        → get pid' st.projects ≡ some p'
        → p.subnet_index ≡ p'.subnet_index
        → pid ≡ pid'

  pub empty-Inv : Inv empty
  unfolding get
  empty-Inv = record { distinct = tt; each = λ pid p e. cc; apart = λ pid pid' p p' e e' h. cc }

not_held :
    (p : ProjectState) (vm_id : Text) (ip : ℕ) → owns_vm p vm_id ≡ false → get ip p.vms ≢ some vm_id
not_held p vm_id ip absent h = cc (absent, owns_of_get p ip vm_id h)

module _ {supernet : Ipv4Net} {prefix : ℕ} where
  put_apart :
      (st : NetState) (pid : ℕ) (p : ProjectState)
      → Inv supernet prefix st
      → ((j : ℕ) (q : ProjectState)
          → get j st.projects ≡ some q
          → q.subnet_index ≡ p.subnet_index
          → j ≡ pid)
      → (j j' : ℕ) (q q' : ProjectState)
      → ((pid ≡ j) × (p ≡ q)) ⊎ ((pid ≢ j) × (get j st.projects ≡ some q))
      → ((pid ≡ j') × (p ≡ q')) ⊎ ((pid ≢ j') × (get j' st.projects ≡ some q'))
      → q.subnet_index ≡ q'.subnet_index
      → j ≡ j'
  put_apart st pid p v fresh j j' q q' (inl (a, b)) (inl (c, d)) h = cc
  put_apart st pid p v fresh j j' q q' (inl (a, b)) (inr (c, d)) h =
      absurd (c (sym (fresh j' q' d (sym h ∙ ap (λ (r : ProjectState). r.subnet_index) (sym b)))))
  put_apart st pid p v fresh j j' q q' (inr (a, b)) (inl (c, d)) h =
      absurd (a (sym (fresh j q b (h ∙ ap (λ (r : ProjectState). r.subnet_index) (sym d)))))
  put_apart st pid p v fresh j j' q q' (inr (a, b)) (inr (c, d)) h = v.apart j j' q q' b d h

  pub put-Inv :
      (st : NetState) (pid : ℕ) (p : ProjectState)
      → Inv supernet prefix st
      → IsProject supernet prefix pid p
      → ((j : ℕ) (q : ProjectState)
          → get j st.projects ≡ some q
          → q.subnet_index ≡ p.subnet_index
          → j ≡ pid)
      → Inv supernet prefix (record st { projects = insert pid p st.projects })
  put-Inv st pid p v w fresh = record {
    distinct = insert-Uniq pid p st.projects v.distinct;
    each = λ j q e. elim (insert_cases pid j p q st.projects e) [
      | inl (same, eq) ↦
          subst (IsProject supernet prefix j) eq (subst (λ i. IsProject supernet prefix i p) same w)
      | inr (other, f) ↦ v.each j q f
    ];
    apart = λ j j' q q' e e' h.
        put_apart st pid p v fresh j j' q q' (insert_cases pid j p q st.projects e)
          (insert_cases pid j' p q' st.projects e') h;
  }

  drop-Inv :
      (st : NetState) (pid : ℕ)
      → Inv supernet prefix st
      → Inv supernet prefix (record st { projects = remove pid st.projects })
  drop-Inv st pid v = record {
    distinct = remove-Uniq pid st.projects v.distinct;
    each = λ j q e. v.each j q (ground (arith, get-remove pid j st.projects));
    apart = λ j j' q q' e e' h.
        v.apart j j' q q' (ground (arith, get-remove pid j st.projects))
          (ground (arith, get-remove pid j' st.projects)) h;
  }

  with_vm_single :
      (pid : ℕ) (p : ProjectState) (ip : ℕ) (vm_id : Text)
      → IsProject supernet prefix pid p
      → owns_vm p vm_id ≡ false
      → (j j' : ℕ) (w : Text) → ((ip ≡ j) × (vm_id ≡ w)) ⊎ ((ip ≢ j) × (get j p.vms ≡ some w))
      → ((ip ≡ j') × (vm_id ≡ w)) ⊎ ((ip ≢ j') × (get j' p.vms ≡ some w))
      → j ≡ j'
  with_vm_single pid p ip vm_id v absent j j' w (inl (a, b)) (inl (c, d)) = cc
  with_vm_single pid p ip vm_id v absent j j' w (inl (a, b)) (inr (c, d)) =
      absurd (not_held p vm_id j' absent (d ∙ ap some (sym b)))
  with_vm_single pid p ip vm_id v absent j j' w (inr (a, b)) (inl (c, d)) =
      absurd (not_held p vm_id j absent (b ∙ ap some (sym d)))
  with_vm_single pid p ip vm_id v absent j j' w (inr (a, b)) (inr (c, d)) = v.single j j' w b d

  pub with_vm-IsProject :
      (pid : ℕ) (p : ProjectState) (ip : ℕ) (vm_id : Text)
      → IsProject supernet prefix pid p
      → owns_vm p vm_id ≡ false
      → Usable supernet prefix p.subnet_index ip
      → IsProject supernet prefix pid (with_vm p ip vm_id)
  with_vm-IsProject pid p ip vm_id v absent usable = record {
    slot = v.slot;
    named = v.named;
    routed = v.routed;
    uniq = insert-Uniq ip vm_id p.vms v.uniq;
    occupied = insert-not_empty ip vm_id p.vms;
    placed = λ j w e. elim (insert_cases ip j vm_id w p.vms e) [
      | inl (same, eq) ↦ subst (Usable supernet prefix p.subnet_index) same usable
      | inr (other, f) ↦ v.placed j w f
    ];
    single = λ j j' w e e'.
        with_vm_single pid p ip vm_id v absent j j' w (insert_cases ip j vm_id w p.vms e)
          (insert_cases ip j' vm_id w p.vms e');
  }

  remove_vm-IsProject :
      (pid : ℕ) (p : ProjectState) (vm_id : Text)
      → IsProject supernet prefix pid p
      → is_empty (remove_vm p vm_id).vms ≡ false
      → IsProject supernet prefix pid (remove_vm p vm_id)
  unfolding remove_vm
  remove_vm-IsProject pid p vm_id v left = record {
    slot = v.slot;
    named = v.named;
    routed = v.routed;
    uniq = retain-Uniq _ p.vms v.uniq;
    occupied = left;
    placed = λ j w e. v.placed j w (retain_cases _ j w p.vms v.uniq e).0;
    single = λ j j' w e e'.
        v.single j j' w (retain_cases _ j w p.vms v.uniq e).0
          (retain_cases _ j' w p.vms v.uniq e').0;
  }

  pub drop_vm-Inv :
      (st : NetState) (pid : ℕ) (p : ProjectState) (vm_id : Text)
      → Inv supernet prefix st
      → get pid st.projects ≡ some p
      → Inv supernet prefix (drop_vm st pid p vm_id)
  unfolding drop_vm
  drop_vm-Inv st pid p vm_id v e = elim (Bool-cases (is_empty (remove_vm p vm_id).vms)) [
    | inl last ↦ rw (last, drop_vm) (drop-Inv st pid v)
    | inr left ↦
        rw (left, drop_vm)
          (put-Inv st pid (remove_vm p vm_id) v
            (remove_vm-IsProject pid p vm_id (v.each pid p e) left)
            (λ j q f h. v.apart j pid q p f e (unfold remove_vm in h)))
  ]
