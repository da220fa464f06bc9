-- ===== src/Noise/Pin.antt =====
-- When `pin_remote` lets a session pass.
use ppo_se_protocol.Common.{
  ℕ, ◌≡◌, refl, ap, sym, ◌∙◌, Option, none, some, List, length, Result, ok, err, ok-inj, ◌↔◌, ◌≢◌,
  ℕ_discrete,
}
use ppo_se_protocol.Common.Table.{bytes_discrete}
use ppo_se_protocol.Noise.{
  Snow, NoiseSession, NoiseError, key_mismatch, copied_if, of_length_32, matched, pinned, static_of,
  remote_static, pin_remote,
}

copied_if-ok :
    {P : Type 0} (d : Dec P) (slice got : List ℕ) → copied_if d slice ≡ ok got → P × (slice ≡ got)
copied_if-ok (yes p) slice got h = (p, ok-inj h)
copied_if-ok (no _) slice got h = absurd (cc h)

copied_if-yes : {P : Type 0} (d : Dec P) (slice : List ℕ) → P → copied_if d slice ≡ ok slice
copied_if-yes (yes _) slice p = refl
copied_if-yes (no f) slice p = absurd (f p)

matched-ok : {P : Type 0} (d : Dec P) → matched d ≡ ok tt → P
matched-ok (yes p) h = p
matched-ok (no _) h = absurd (cc h)

matched-yes : {P : Type 0} (d : Dec P) → P → matched d ≡ ok tt
matched-yes (yes _) p = refl
matched-yes (no f) p = absurd (f p)

matched-no : {P : Type 0} (d : Dec P) → ¬ P → matched d ≡ err key_mismatch
matched-no (yes p) f = absurd (f p)
matched-no (no _) f = refl

matched-mismatch : {P : Type 0} (d : Dec P) → matched d ≡ err key_mismatch → ¬ P
matched-mismatch (yes p) h = absurd (cc h)
matched-mismatch (no f) h = f

copied_if-err : {P : Type 0} (d : Dec P) (slice : List ℕ) → copied_if d slice ≢ err key_mismatch
copied_if-err (yes p) slice h = absurd (cc h)
copied_if-err (no _) slice h = absurd (cc h)

of_length_32-err : (o : Option (List ℕ)) → of_length_32 o ≢ err key_mismatch
of_length_32-err none h = absurd (cc h)
of_length_32-err (some slice) h = copied_if-err (ℕ_discrete (length slice) 32) slice h

of_length_32-ok :
    (o : Option (List ℕ)) (got : List ℕ)
    → of_length_32 o ≡ ok got
    → (o ≡ some got) × (length got ≡ 32)
of_length_32-ok none got h = absurd (cc h)
of_length_32-ok (some slice) got h =
    let (l, e) = copied_if-ok (ℕ_discrete (length slice) 32) slice got h in
    (ap some e, ap length (sym e) ∙ l)

of_length_32-some :
    (o : Option (List ℕ)) (key : List ℕ) → o ≡ some key → length key ≡ 32 → of_length_32 o ≡ ok key
of_length_32-some o key e l = ap of_length_32 e ∙ copied_if-yes (ℕ_discrete (length key) 32) key l

module _ (snow : Snow) where
  -- The session is in transport mode, and its remote static key is the one given, of 32 bytes.
  pub record HasRemote (key : List ℕ) (s : NoiseSession snow) : Type 0 where
    pub ts : snow.TransportState
    pub transport : s.transport ≡ some ts
    pub static : snow.get_remote_static ts ≡ some key
    pub size : length key ≡ 32

  static_of-ok :
      (o : Option snow.TransportState) (got : List ℕ)
      → static_of snow o ≡ ok got
      → (ts : snow.TransportState) × (o ≡ some ts)
        × (snow.get_remote_static ts ≡ some got)
        × (length got ≡ 32)
  static_of-ok none got h = absurd (cc h)
  static_of-ok (some ts) got h =
      let (e, l) = of_length_32-ok (snow.get_remote_static ts) got h in (ts, refl, e, l)

  remote_static-HasRemote :
      (key : List ℕ) (s : NoiseSession snow) → HasRemote key s → remote_static snow s ≡ ok key
  unfolding remote_static
  remote_static-HasRemote key s h =
      ap (static_of snow) h.transport
      ∙ of_length_32-some (snow.get_remote_static h.ts) key h.static h.size

  pinned-ok :
      (r : Result NoiseError (List ℕ)) (expected : List ℕ)
      → pinned expected r ≡ ok tt
      → r ≡ ok expected
  pinned-ok (err e) expected h = absurd (cc h)
  pinned-ok (ok got) expected h = ap ok (matched-ok (bytes_discrete got expected) h)

  HasRemote-pin_remote :
      (expected : List ℕ) (s : NoiseSession snow)
      → pin_remote snow expected s ≡ ok tt
      → HasRemote expected s
  unfolding pin_remote remote_static
  HasRemote-pin_remote expected s h =
      let (ts, t, e, l) =
        static_of-ok s.transport expected (pinned-ok (remote_static snow s) expected h) in
      record { ts = ts; transport = t; static = e; size = l }

  pub pin_remote-HasRemote :
      (expected : List ℕ) (s : NoiseSession snow)
      → HasRemote expected s
      → pin_remote snow expected s ≡ ok tt
  unfolding pin_remote
  pin_remote-HasRemote expected s h =
      ap (pinned expected) (remote_static-HasRemote expected s h)
      ∙ matched-yes (bytes_discrete expected expected) refl

  -- The session is in transport mode, and its remote static key is another one, of 32 bytes.
  abbrev pub HasOther : List ℕ → NoiseSession snow → Type 0
  HasOther expected s = (other : List ℕ) × HasRemote other s × (other ≢ expected)

  static_of-err : (o : Option snow.TransportState) → static_of snow o ≢ err key_mismatch
  static_of-err none h = absurd (cc h)
  static_of-err (some ts) h = of_length_32-err (snow.get_remote_static ts) h

  pinned-mismatch :
      (r : Result NoiseError (List ℕ)) (expected : List ℕ)
      → r ≢ err key_mismatch
      → pinned expected r ≡ err key_mismatch
      → (other : List ℕ) × (r ≡ ok other) × (other ≢ expected)
  pinned-mismatch (err e) expected never h =
      let same : e ≡ key_mismatch = cc h in absurd (never (ap err same))
  pinned-mismatch (ok got) expected never h =
      (got, refl, matched-mismatch (bytes_discrete got expected) h)

  HasOther-pin_remote :
      (expected : List ℕ) (s : NoiseSession snow)
      → pin_remote snow expected s ≡ err key_mismatch
      → HasOther expected s
  unfolding pin_remote remote_static
  HasOther-pin_remote expected s h =
      let (other, e, ne) =
        pinned-mismatch (remote_static snow s) expected (static_of-err s.transport) h in
      let (ts, t, r, l) = static_of-ok s.transport other e in
      (other, record { ts = ts; transport = t; static = r; size = l }, ne)

  pin_remote-HasOther :
      (expected : List ℕ) (s : NoiseSession snow)
      → HasOther expected s
      → pin_remote snow expected s ≡ err key_mismatch
  unfolding pin_remote
  pin_remote-HasOther expected s (other, h, ne) =
      ap (pinned expected) (remote_static-HasRemote other s h)
      ∙ matched-no (bytes_discrete other expected) ne

  -- `pin_remote` succeeds exactly when the session is in transport mode and its remote static key is
  -- the expected one, of 32 bytes; and it reports a mismatch exactly when the session is in transport
  -- mode and that key is another one of 32 bytes.
  pub pin_remote_lem :
      (expected : List ℕ) (s : NoiseSession snow)
      → ((pin_remote snow expected s ≡ ok tt) ↔ HasRemote expected s)
        × ((pin_remote snow expected s ≡ err key_mismatch) ↔ HasOther expected s)
  pin_remote_lem expected s = (
    (HasRemote-pin_remote expected s, pin_remote-HasRemote expected s),
    (HasOther-pin_remote expected s, pin_remote-HasOther expected s),
  )
