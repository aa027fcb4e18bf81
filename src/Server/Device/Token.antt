-- ===== src/Server/Device/Token.antt =====
-- The session behind the token that an approval hands out.
use secd.Base.{ℕ, ◌≡◌, refl, ap, sym, Option, none, some, if◌then◌else◌, ltb, subst}
use secd.Base.Text.{Str, codes, is_empty}
use secd.Server.Db.{Tables}
use secd.Server.Db.Atomic.{Gives}
use secd.Server.Audit.{Encoders}
use secd.Server.Sessions.{
  Session, SessionKind, console, device, ttl, saturating_add, console_from_headers, create_device,
  create,
}
use secd.Server.Sessions
use secd.Server.Sessions.Lookup.{create_row, lookup-create}
use secd.Server.Device.{Shared}
use secd.Server.Device.Handlers.{ApproveBody, Clock}
use secd.Server.Device.Pairing.{Approval}

module _ (enc : Encoders) where
  -- The token that an approval hands out opens a device session of the account that approved, under
  -- the request's host name, for as long as a device session lives.
  pub approval-lookup :
      (clock : Clock) (id token : Str) (body : ApproveBody) (session : Session) (s t : Shared)
      (later : ℕ) (t' : Tables) (found : Option Session)
      → (a : Approval enc clock id token body session s t)
      → Gives (secd.Server.Sessions.lookup enc later a.made.0.1) t.conn.tables found t'
      → found ≡ (
          if ltb later (saturating_add clock.unix (ttl device))
          then some (record {
            id = id;
            email = session.email;
            kind = device;
            label = if is_empty a.device.hostname then codes "device" else a.device.hostname;
            created = clock.unix;
            last_seen = later;
          })
          else none)
  unfolding create_device
  approval-lookup clock id token body session s t later t' found a g =
      let label = if is_empty a.device.hostname then codes "device" else a.device.hostname in
      let made : Gives (create enc clock.unix id token session.email device label) s.conn.tables
          a.made.0 t.conn.tables =
        record {
          before = s.conn;
          after = a.made.1;
          starts = refl;
          runs = a.creates;
          ends = ap (λ (x : Shared). x.conn.tables) (sym a.ends);
        } in
      let (same, _, _) = create_row enc clock.unix id token session.email label device made in
      lookup-create enc clock.unix later id token session.email label device s.conn.tables
        t.conn.tables t' a.made.0 found made
        (subst (λ k. Gives (secd.Server.Sessions.lookup enc later k) t.conn.tables found t')
          (ap (λ (p : Str × Str). p.1) same) g)
