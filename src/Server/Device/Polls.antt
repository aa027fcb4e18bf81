-- ===== src/Server/Device/Polls.antt =====
-- What a poll answers, and what an approval means for the polls that follow.
use secd.Base.{
  ℕ, ◌≤◌, Bool, true, false, ◌≡◌, ◌≢◌, refl, ap, sym, ◌∙◌, ◌⊎◌, inl, inr, Option, none, some, List,
  [], ◌∷◌, All, if◌then◌else◌, Bool-cases, if_intro, subst,
}
use secd.Base.Text.{Str, codes, str_eq, str_eq_iff}
use secd.Base.Map.{
  Map, lookup, remove, retain, filtered, HasNodupKeys, insert-HasNodupKeys, retain-HasNodupKeys,
  remove-HasNodupKeys, lookup-retain, lookup-remove, lookup-retain_keep, lookup-retain_sound,
  lookup-retain_absent, lookup-retain_drop, lookup-insert_same,
}
use secd.Base.Json.{as_str, value_get, unwrap_or}
use secd.Server.Headers.{Reply, json_status}
use secd.Server.Audit.{Encoders}
use secd.Server.Sessions.{Session}
use secd.Server.Device.{Device, Approved, Shared, sweep, within_ttl}
use secd.Server.Device.Handlers.{
  ApproveBody, Clock, status, poll, poll_device, poll_approved, approved_reply,
}
use secd.Server.Device.Pairing.{Approval, within_ttl-earlier}

-- Whether a reply says `expired`.
says_expired : Reply → Bool
says_expired r =
    str_eq (unwrap_or [] (as_str (value_get (codes "status") r.body))) (codes "expired")

-- The answer for a request that is alive or absent, and what then remains of it.
abbrev pub answer_of : Option Device → Reply
answer_of none = json_status 404 (codes "not found")
answer_of (some d) = if d.denied then status (codes "denied") else poll_approved d.approved

abbrev pub remaining : Option Device → Option Device
remaining none = none
remaining (some d) = if d.denied then none else some d

answer_not_expired : (o : Option Device) → says_expired (answer_of o) ≡ false
unfolding says_expired str_eq
answer_not_expired none = refl
answer_not_expired (some d) = elim (Bool-cases d.denied) [
  | inl k ↦ rw k refl
  | inr k ↦ rw k (settled d.approved)
]
  where
    settled : (o : Option Approved) → says_expired (poll_approved o) ≡ false
    settled none = refl
    settled (some a) = refl

poll_device_lem :
    (now : ℕ) (code : Str) (s : Shared) (o : Option Device)
    → lookup code s.devices ≡ o
    → ((d : Device) → o ≡ some d → within_ttl now d ≡ true)
    → ((poll_device now code s o).0 ≡ answer_of o)
      × (lookup code (poll_device now code s o).1.devices ≡ remaining o)
unfolding poll_device
poll_device_lem now code s none l live = (refl, l)
poll_device_lem now code s (some d) l live = rw (live d refl) (by_denied d.denied)
  where
    by_denied :
        (b : Bool)
        → let r : Reply × Shared =
            if b
            then (status (codes "denied"), record s { devices = remove code s.devices })
            else (poll_approved d.approved, s) in
          (r.0 ≡ (if b then status (codes "denied") else poll_approved d.approved))
          × (lookup code r.1.devices ≡ (if b then none else some d))
    by_denied true =
        (refl, rw (lookup-remove code code s.devices, (str_eq_iff code code).1 refl) refl)
    by_denied false = (refl, l)

-- A poll whose sweep reads the clock no earlier than `now`: it answers from the request that the code
-- names, where that is within its time to live at the sweep, and `not found` otherwise, hence never
-- `expired`; a denied request is answered once and is then gone, any other stays, and an expired one
-- is gone.
pub poll_never_expired :
    (clock : Clock) (code : Str) (s : Shared)
    → clock.now ≤ clock.swept
    → HasNodupKeys s.devices
    → ((poll clock code s).0
        ≡ answer_of (filtered (within_ttl clock.swept) (lookup code s.devices)))
      × (lookup code (poll clock code s).1.devices
          ≡ remaining (filtered (within_ttl clock.swept) (lookup code s.devices)))
      × ((poll clock code s).0 ≢ status (codes "expired"))
unfolding poll sweep says_expired str_eq
poll_never_expired clock code s h nodup =
    let swept = record s { devices = retain (within_ttl clock.swept) s.devices } in
    let o = filtered (within_ttl clock.swept) (lookup code s.devices) in
    let found : lookup code swept.devices ≡ o =
      lookup-retain (within_ttl clock.swept) code s.devices nodup in
    let live : (d : Device) → lookup code swept.devices ≡ some d → within_ttl clock.now d ≡ true =
      λ d e.
        within_ttl-earlier clock.now clock.swept d h
          (lookup-retain_sound (within_ttl clock.swept) code d s.devices e) in
    let (answered, remains) =
      poll_device_lem clock.now code swept (lookup code swept.devices) refl live in
    (
      answered ∙ ap answer_of found,
      remains ∙ ap remaining found,
      λ e. absurd (
          let no_expiry = answer_not_expired (lookup code swept.devices) in
          let same = ap says_expired (sym answered ∙ e) in cc),
    )

-- A poll takes away at most the request of its own code.
poll_device_cases :
    (now : ℕ) (code : Str) (s : Shared) (o : Option Device)
    → ((poll_device now code s o).1.devices ≡ s.devices)
      ⊎ ((poll_device now code s o).1.devices ≡ remove code s.devices)
unfolding poll_device
poll_device_cases now code s none = inl refl
poll_device_cases now code s (some d) = elim (Bool-cases (within_ttl now d)) [
  | inr off ↦ rw off (inr refl)
  | inl on ↦ elim (Bool-cases d.denied) [
    | inl k ↦ rw (on, k) (inr refl)
    | inr k ↦ rw (on, k) (inl refl)
  ]
]

-- Polls of any codes, in their order.
unfoldable pub after_polls : List (Clock × Str) → Shared → Shared
after_polls [] s = s
after_polls ((clock, code) ∷ rest) s = after_polls rest (poll clock code s).1

-- A poll whose clocks are in order and no later than `last`.
abbrev pub IsBefore : ℕ → Clock × Str → Type 0
IsBefore last (clock, code) = (clock.now ≤ clock.swept) × (clock.swept ≤ last)

-- The code names the approved request, or names nothing where its time to live has passed at `last`.
record Waiting (last : ℕ) (code : Str) (ready : Device) (m : Map Device) : Type 0 where
  nodup : HasNodupKeys m
  named : (lookup code m ≡ some ready) ⊎ ((lookup code m ≡ none) × (within_ttl last ready ≡ false))

-- What a poll of any code keeps of an entry that is named and alive, or absent.
poll_device_named :
    (now : ℕ) (k code : Str) (s : Shared) (ready : Device)
    → lookup code s.devices ≡ some ready
    → within_ttl now ready ≡ true
    → ready.denied ≡ false
    → lookup code (poll_device now k s (lookup k s.devices)).1.devices ≡ some ready
poll_device_named now k code s ready l on fine = elim (Bool-cases (str_eq k code)) [
  | inl same ↦
      subst (λ j. lookup code (poll_device now j s (lookup j s.devices)).1.devices ≡ some ready)
        (sym ((str_eq_iff k code).0 same))
        ((poll_device_lem now code s (lookup code s.devices) refl live).1
          ∙ ap remaining l
          ∙ ap (λ b. if b then none else some ready) fine)
  | inr other ↦ elim (poll_device_cases now k s (lookup k s.devices)) [
    | inl e ↦ ap (lookup code) e ∙ l
    | inr e ↦
        ap (lookup code) e
        ∙ lookup-remove k code s.devices
        ∙ ap (λ b. if b then none else lookup code s.devices) other
        ∙ l
  ]
]
  where
    live : (d : Device) → lookup code s.devices ≡ some d → within_ttl now d ≡ true
    live d e = let same : ready ≡ d = cc in subst (λ (x : Device). within_ttl now x ≡ true) same on

poll_device_absent :
    (now : ℕ) (k code : Str) (s : Shared)
    → lookup code s.devices ≡ none
    → lookup code (poll_device now k s (lookup k s.devices)).1.devices ≡ none
poll_device_absent now k code s l = elim (poll_device_cases now k s (lookup k s.devices)) [
  | inl e ↦ ap (lookup code) e ∙ l
  | inr e ↦
      ap (lookup code) e
      ∙ lookup-remove k code s.devices
      ∙ if_intro (λ (o : Option Device). o ≡ none) (str_eq k code) (λ _. refl) (λ _. l)
]

module _ (last : ℕ) (code : Str) (ready : Device) (fine : ready.denied ≡ false) where
  poll-Waiting :
      (clock : Clock) (k : Str) (s : Shared)
      → IsBefore last (clock, k)
      → Waiting last code ready s.devices
      → Waiting last code ready (poll clock k s).1.devices
  unfolding poll sweep
  poll-Waiting clock k s order w =
      let m = retain (within_ttl clock.swept) s.devices in
      let swept = record s { devices = m } in
      let nodup = retain-HasNodupKeys (within_ttl clock.swept) s.devices w.nodup in
      record {
        nodup = elim (poll_device_cases clock.now k swept (lookup k m)) [
          | inl e ↦ subst HasNodupKeys (sym e) nodup
          | inr e ↦ subst HasNodupKeys (sym e) (remove-HasNodupKeys k m nodup)
        ];
        named = elim w.named [
          | inr gone ↦ inr (
            poll_device_absent clock.now k code swept
                (lookup-retain_absent (within_ttl clock.swept) code s.devices gone.0),
            gone.1,
          )
          | inl there ↦ elim (Bool-cases (within_ttl clock.swept ready)) [
            | inl on ↦ inl (
                poll_device_named clock.now k code swept ready
                  (lookup-retain_keep (within_ttl clock.swept) code ready s.devices w.nodup there
                    on)
                  (within_ttl-earlier clock.now clock.swept ready order.0 on) fine)
            | inr off ↦ inr (
              poll_device_absent clock.now k code swept (
                  lookup-retain_drop (within_ttl clock.swept) code ready s.devices w.nodup there
                    off),
              elim (Bool-cases (within_ttl last ready)) [
                | inr e ↦ e
                | inl e ↦
                    absurd (let on = within_ttl-earlier clock.swept last ready order.1 e in cc)
              ],
            )
          ]
        ];
      }

  after_polls-Waiting :
      (polls : List (Clock × Str)) (s : Shared)
      → All (IsBefore last) polls
      → Waiting last code ready s.devices
      → Waiting last code ready (after_polls polls s).devices
  unfolding after_polls
  after_polls-Waiting [] s order w = w
  after_polls-Waiting ((clock, k) ∷ rest) s order w =
      after_polls-Waiting rest (poll clock k s).1 order.1 (poll-Waiting clock k s order.0 w)

  filtered-Waiting :
      (m : Map Device)
      → Waiting last code ready m
      → filtered (within_ttl last) (lookup code m)
        ≡ (if within_ttl last ready then some ready else none)
  filtered-Waiting m w = elim w.named [
    | inl there ↦ rw there refl
    | inr gone ↦ rw (gone.0, gone.1) refl
  ]

answer_of-if :
    (b : Bool) (d : Device) (a : Approved)
    → d.denied ≡ false
    → d.approved ≡ some a
    → answer_of (if b then some d else none)
      ≡ (if b then approved_reply a else json_status 404 (codes "not found"))
answer_of-if true d a e f =
    ap (λ x. if x then status (codes "denied") else poll_approved d.approved) e ∙ ap poll_approved f
answer_of-if false d a e f = refl

module _ (enc : Encoders) where
  -- After an approval every poll of its code hands out the token that the session store created and
  -- the sealed key of the approval, as long as the time to live of the request has not passed when the
  -- poll sweeps, where the codes of the map were distinct before; from then on the code is not found.
  -- This holds of the first poll behind the approval
  -- and of each later one: any polls, of this code and of others, may come before it, each with its
  -- clocks in order and no later than the sweep of this one.
  pub approve-poll :
      (clock : Clock) (id token : Str) (body : ApproveBody) (session : Session) (s t : Shared)
      (polls : List (Clock × Str)) (next : Clock)
      → HasNodupKeys s.devices
      → All (IsBefore next.swept) polls
      → next.now ≤ next.swept
      → (approval : Approval enc clock id token body session s t)
      → (poll next body.user_code (after_polls polls t)).0 ≡ (
          if within_ttl next.swept approval.device
          then approved_reply (record { token = approval.made.0.1; sealed_dek = body.sealed_dek })
          else json_status 404 (codes "not found"))
  approve-poll clock id token body session s t polls next nodup before order a =
      let given : Approved = record { token = a.made.0.1; sealed_dek = body.sealed_dek } in
      let ready : Device = record (a.device) { approved = some given } in
      let start : Waiting next.swept body.user_code ready t.devices =
        subst (λ (t : Shared). Waiting next.swept body.user_code ready t.devices) (sym a.ends)
          (record {
            nodup = insert-HasNodupKeys body.user_code ready s.devices nodup;
            named = inl (lookup-insert_same body.user_code ready s.devices);
          }) in
      let w = after_polls-Waiting next.swept body.user_code ready a.undenied polls t before start in
      (poll_never_expired next body.user_code (after_polls polls t) order w.nodup).0
      ∙ ap answer_of (
          filtered-Waiting next.swept body.user_code ready a.undenied (after_polls polls t).devices
            w)
      ∙ answer_of-if (within_ttl next.swept a.device) ready given a.undenied refl
