-- ===== src/Server/Device/Pairing.antt =====
-- What holds where an approval succeeds.
use secd.Base.{
  ℕ, ◌≤◌, Bool, true, false, not, ◌≡◌, ◌≢◌, refl, ap, sym, ◌∙◌, Option, none, some, if◌then◌else◌,
  arith,
}
use secd.Base.Text.{Str, codes}
use secd.Base.Map.{Map, lookup, insert}
use secd.Server.Db.{Conn}
use secd.Server.Headers.{HeaderMap, Reply, json_status, fail_auth}
use secd.Server.Audit.{Encoders}
use secd.Server.Sessions.{Session, console, cookie_token, console_from_headers, create_device}
use secd.Server.Sessions.Guards.{Opens, console_from_headers_sound}
use secd.Server.Device.{Device, Shared, sweep, within_ttl, sealed_ok, is_some}
use secd.Server.Device.Handlers.{
  ApproveBody, Clock, approve, approve_as, approve_device, approve_created,
}

pub within_ttl-earlier :
    (now later : ℕ) (d : Device) → now ≤ later → within_ttl later d ≡ true → within_ttl now d ≡ true
within_ttl-earlier now later d h e = ground arith

-- A test that did not refuse.
pub passed :
    (b : Bool) (x y : Reply × Shared)
    → x.0.status ≢ 200
    → (if b then x else y).0.status ≡ 200
    → (b ≡ false) × ((if b then x else y) ≡ y)
passed true x y n h = absurd (n h)
passed false x y n h = (refl, refl)

module _ (enc : Encoders) where
  -- The state that an approval leaves.
  abbrev pub approved_state : ApproveBody → Str → Device → Map Device → Conn → Shared
  approved_state body token d m c = record {
    devices =
        insert body.user_code
          (record d { approved = some (record { token = token; sealed_dek = body.sealed_dek }) }) m;
    conn = c;
  }

  -- What holds where an approval succeeds: the request waits, the sealed key has the right shape, and
  -- the session store has created the device's session on the connection `c`.
  pub record Approval (clock : Clock) (id token : Str) (body : ApproveBody) (session : Session)
      (s t : Shared) : Type 0 where
    pub device : Device
    pub found : lookup body.user_code s.devices ≡ some device
    pub live : within_ttl clock.now device ≡ true
    pub waits : is_some device.approved ≡ false
    pub undenied : device.denied ≡ false
    pub sealed : sealed_ok body.sealed_dek ≡ true
    pub made : (Str × Str) × Conn
    pub creates :
        create_device enc clock.unix id token session.email device.hostname s.conn
        ≡ (some made.0, made.1)
    pub ends : t ≡ approved_state body made.0.1 device s.devices made.1

  created_sound :
      (body : ApproveBody) (d : Device) (s : Shared) (r : Option (Str × Str) × Conn)
      → (approve_created enc body d s r).0.status ≡ 200
      → (p : (Str × Str) × Conn) × (r ≡ (some p.0, p.1))
        × ((approve_created enc body d s r).1 ≡ approved_state body p.0.1 d s.devices p.1)
  created_sound body d s (none, c) h = absurd (omega arith)
  created_sound body d s (some p, c) h = ((p, c), refl, refl)

  approve_device_sound :
      (clock : Clock) (id token : Str) (body : ApproveBody) (session : Session) (s : Shared)
      (o : Option Device)
      → lookup body.user_code s.devices ≡ o
      → (approve_device enc clock id token body session s o).0.status ≡ 200
      → Approval clock id token body session s
          (approve_device enc clock id token body session s o).1
  unfolding approve_device
  approve_device_sound clock id token body session s none l h = absurd (omega arith)
  approve_device_sound clock id token body session s (some d) l h =
      let last =
        approve_created enc body d s
          (create_device enc clock.unix id token session.email d.hostname s.conn) in
      let refused : ℕ → Str → Reply × Shared = λ n e. (json_status n e, s) in
      let shaped =
        if not (sealed_ok body.sealed_dek) then refused 400 (codes "sealed_dek") else last in
      let unapproved =
        if is_some d.approved then refused 400 (codes "already approved") else shaped in
      let undenied = if d.denied then refused 400 (codes "denied") else unapproved in
      let (a, e₁) =
        passed (not (within_ttl clock.now d)) (fail_auth, s) undenied (λ q. omega arith) h in
      let (b, e₂) =
        passed d.denied _ unapproved (λ q. omega arith)
          (ap (λ (r : Reply × Shared). r.0.status) (sym e₁) ∙ h) in
      let (c, e₃) =
        passed (is_some d.approved) _ shaped (λ q. omega arith)
          (ap (λ (r : Reply × Shared). r.0.status) (sym (e₁ ∙ e₂)) ∙ h) in
      let (z, e₄) =
        passed (not (sealed_ok body.sealed_dek)) _ last (λ q. omega arith)
          (ap (λ (r : Reply × Shared). r.0.status) (sym (e₁ ∙ e₂ ∙ e₃)) ∙ h) in
      let all_passed = e₁ ∙ e₂ ∙ e₃ ∙ e₄ in
      let (p, made, ends) =
        created_sound body d s _ (ap (λ (r : Reply × Shared). r.0.status) (sym all_passed) ∙ h) in
      record {
        device = d;
        found = l;
        live = ground arith;
        waits = c;
        undenied = b;
        sealed = ground arith;
        made = p;
        creates = made;
        ends = ap (λ (r : Reply × Shared). r.1) all_passed ∙ ends;
      }

  -- An approval that is answered with 200 comes from a live console session that the request's cookie
  -- opens, and is for a request that was waiting at that time and is not expired, with a sealed key of
  -- the right shape; the session store has created the device's session for the console's account.
  pub approve_sound :
      (clock : Clock) (id token : Str) (headers : HeaderMap) (body : ApproveBody) (s : Shared)
      → (approve enc clock id token headers body s).0.status ≡ 200
      → (session : Session) × (cookie : Str) × (c : Conn) × (console_from_headers enc clock.auth
            headers s.conn
          ≡ (some session, c))
        × (cookie_token headers ≡ some cookie)
        × Opens enc clock.auth cookie s.conn.tables session
        × (session.kind ≡ console)
        × Approval clock id token body session
            (record { devices = sweep clock.swept s.devices; conn = c })
            (approve enc clock id token headers body s).1
  unfolding approve
  approve_sound clock id token headers body s h =
      by_session (console_from_headers enc clock.auth headers s.conn) refl h
    where
      by_session :
          (r : Option Session × Conn)
          → console_from_headers enc clock.auth headers s.conn ≡ r
          → (approve_as enc clock id token body s.devices r).0.status ≡ 200
          → (session : Session) × (cookie : Str) × (c : Conn) × (console_from_headers enc clock.auth
                headers s.conn
              ≡ (some session, c))
            × (cookie_token headers ≡ some cookie)
            × Opens enc clock.auth cookie s.conn.tables session
            × (session.kind ≡ console)
            × Approval clock id token body session
                (record { devices = sweep clock.swept s.devices; conn = c })
                (approve_as enc clock id token body s.devices r).1
      by_session (none, c) e k = absurd (omega arith)
      by_session (some session, c) e k =
          let (cookie, found, opens, kind) =
            console_from_headers_sound enc clock.auth headers s.conn session
              (ap (λ (r : Option Session × Conn). r.0) e) in
          (
            session,
            cookie,
            c,
            e,
            found,
            opens,
            kind,
            approve_device_sound clock id token body session _ _ refl k,
          )
