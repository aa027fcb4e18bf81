-- ===== src/Server/Device/Settled.antt =====
-- A request that was approved: what later changes can do to it.
use secd.Base.{
  ℕ, ◌≤◌, Bool, true, false, ◌≡◌, refl, sym, ◌∙◌, ◌⊎◌, inl, inr, Option, none, some, Bool-cases,
  subst,
}
use secd.Base.Text.{Str, str_eq, str_eq_iff}
use secd.Base.Map.{
  Map, lookup, insert, remove, HasNodupKeys, lookup-retain_keep, lookup-insert_other, lookup-remove,
  contains_key, all_values-lookup,
}
use secd.Server.Device.{Device, Approved, Shared, sweep, within_ttl, is_some}
use secd.Server.Device.Change.{
  Change, unchanged, swept, opened, closed, granted, refused, within_ttl-later,
}
use secd.Server.Device.Reach.{IsValid, device_ok, approval_ok}

approved_undenied :
    (a : Option Approved) (b : Bool) → is_some a ≡ true → approval_ok a b ≡ true → b ≡ false
approved_undenied none b h k = absurd (cc)
approved_undenied (some a) true h k = absurd (cc)
approved_undenied (some a) false h k = refl

-- The request stands unchanged, or its time to live has passed at the instant.
abbrev pub Remains : Str → Device → ℕ → Shared → Type 0
Remains code d now t = (lookup code t.devices ≡ some d) ⊎ (within_ttl now d ≡ false)

module _ (code : Str) (d : Device) (yes : is_some d.approved ≡ true) where
  swept_or_kept :
      (now : ℕ) (m : Map Device)
      → HasNodupKeys m
      → lookup code m ≡ some d
      → (lookup code (sweep now m) ≡ some d) ⊎ (within_ttl now d ≡ false)
  unfolding sweep
  swept_or_kept now m nodup l = elim (Bool-cases (within_ttl now d)) [
    | inl on ↦ inl (lookup-retain_keep (within_ttl now) code d m nodup l on)
    | inr off ↦ inr off
  ]

  -- Another request with the same code would be this one.
  insert_elsewhere :
      (other : Str) (e x : Device) (m : Map Device)
      → lookup code m ≡ some d
      → lookup other m ≡ some e
      → is_some e.approved ≡ false
      → lookup code (insert other x m) ≡ some d
  insert_elsewhere other e x m l k waits = elim (Bool-cases (str_eq other code)) [
    | inr apart ↦ lookup-insert_other other code x m apart ∙ l
    | inl same ↦
        let there : lookup code m ≡ some e =
          subst (λ c. lookup c m ≡ some e) ((str_eq_iff other code).0 same) k in
        let equal : some d ≡ some e = sym l ∙ there in
        let is : d ≡ e = cc equal in
        absurd (
          let w : is_some e.approved ≡ true =
            subst (λ (y : Device). is_some y.approved ≡ true) is yes in
          cc)
  ]

  insert_new :
      (other : Str) (x : Device) (m : Map Device)
      → lookup code m ≡ some d
      → contains_key other m ≡ false
      → lookup code (insert other x m) ≡ some d
  insert_new other x m l free = elim (Bool-cases (str_eq other code)) [
    | inr apart ↦ lookup-insert_other other code x m apart ∙ l
    | inl same ↦ absurd (
        let e : other ≡ code = (str_eq_iff other code).0 same in
        let none_here : contains_key code m ≡ false =
          subst (λ c. contains_key c m ≡ false) e free in
        let shut : contains_key code m ≡ true = rw (contains_key, l) in cc)
  ]

  remove_elsewhere :
      (at : ℕ) (other : Str) (e : Device) (m : Map Device)
      → d.denied ≡ false
      → lookup code m ≡ some d
      → lookup other m ≡ some e
      → (within_ttl at e ≡ false) ⊎ (e.denied ≡ true)
      → (lookup code (remove other m) ≡ some d) ⊎ (within_ttl at d ≡ false)
  remove_elsewhere at other e m undenied l k goes = elim (Bool-cases (str_eq other code)) [
    | inr apart ↦ inl (rw (lookup-remove other code m, apart) l)
    | inl same ↦
        let there : lookup code m ≡ some e =
          subst (λ c. lookup c m ≡ some e) ((str_eq_iff other code).0 same) k in
        let equal : some e ≡ some d = sym there ∙ l in
        let is : e ≡ d = cc equal in
        elim goes [
          | inl off ↦ inr (subst (λ y. within_ttl at y ≡ false) is off)
          | inr gone ↦
              absurd
                (let g : d.denied ≡ true = subst (λ (y : Device). y.denied ≡ true) is gone in cc)
        ]
  ]

  -- Behind the sweep of a change the request stands, or it was out of time.
  behind :
      (at now : ℕ) (m n : Map Device)
      → now ≤ at
      → HasNodupKeys m
      → lookup code m ≡ some d
      → (lookup code (sweep now m) ≡ some d → (lookup code n ≡ some d) ⊎ (within_ttl at d ≡ false))
      → (lookup code n ≡ some d) ⊎ (within_ttl at d ≡ false)
  behind at now m n le nodup l f = elim (swept_or_kept now m nodup l) [
    | inr off ↦ inr (within_ttl-later now at d le off)
    | inl kept ↦ f kept
  ]

  pub Change-Remains :
      (at : ℕ) (m n : Map Device)
      → Change at m n
      → IsValid m
      → lookup code m ≡ some d
      → (lookup code n ≡ some d) ⊎ (within_ttl at d ≡ false)
  Change-Remains at m _ unchanged v l = inl l
  Change-Remains at m _ (swept now le) v l = behind at now m _ le v.nodup l (λ k. inl k)
  Change-Remains at m _ (opened now le other hostname eph_pub created created_at free) v l =
      behind at now m _ le v.nodup l (λ k. inl (insert_new other _ (sweep now m) k free))
  Change-Remains at m _ (closed now le other e there goes) v l =
      let undenied =
        approved_undenied d.approved d.denied yes
          (all_values-lookup device_ok code d m v.values l) in
      behind at now m _ le v.nodup l
        (λ k. remove_elsewhere at other e (sweep now m) undenied k there goes)
  Change-Remains at m _ (granted now le other e a there waits undenied sealed) v l =
      behind at now m _ le v.nodup l
        (λ k. inl (insert_elsewhere other e _ (sweep now m) k there waits))
  Change-Remains at m _ (refused now le other e there waits) v l =
      behind at now m _ le v.nodup l
        (λ k. inl (insert_elsewhere other e _ (sweep now m) k there waits))
