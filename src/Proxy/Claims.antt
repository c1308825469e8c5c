-- ===== src/Proxy/Claims.antt =====
-- The claim that a connection has on a `--one-shot` session of vncdotool/loggingproxy.py.
use awc_remote.Base.{
  ℕ, ◌+◌, ◌≤◌, ◌≡◌, ◌⊎◌, inl, inr, refl, ap, Bool, true, false, not, ◌&&◌, ◌||◌, Bytes, Option,
  none, some, List, [], ◌∷◌, ◌++◌, length, length-append, ltb, if_both, arith,
}
use mathlib.Core.Path.{subst}
use awc_remote.Capture.{Tap, s2c, c2s, CaptureWriter, feed_capture, flush}
use awc_remote.Proxy.Links.{
  Link, ProxyFactory, gave_up, after_capture, record_bytes, hear_bytes, write_capture,
  finish_session, lose_link,
}

-- A connection that is served, which is one that is live and was not refused.
abbrev pub is_served : Link → Bool
is_served l = l.live && not l.refused

abbrev pub one_if : Bool → ℕ
one_if true = 1
one_if false = 0

abbrev pub count_served : List Link → ℕ
count_served [] = 0
count_served (l ∷ ls) = one_if (is_served l) + count_served ls

-- Sessions under way and archives, as `session_taken` allows for them.
abbrev pub Budget : Bool → ℕ → Type 0
Budget true n = n ≤ 1
Budget false n = n ≡ 0

abbrev pub HasClaim : Link → Type 0
HasClaim l = (l.refused ≡ true) ⊎ (l.took_session ≡ true)

-- What an operation on a connection may do to the claims.
unfoldable pub Keeps : ProxyFactory → Link → ProxyFactory × Link → Type 0
Keeps f l (g, m) =
    (g.one_shot ≡ true)
    × HasClaim m
    × ((rest : ℕ)
        → Budget f.session_taken (one_if (is_served l) + rest + length f.archives)
        → Budget g.session_taken (one_if (is_served m) + rest + length g.archives))

-- Only the bytes and the capture change.
abbrev touched : Bool → Bool → Option CaptureWriter → Bytes → Bytes → Link → Link
touched saw dropped capture to_server to_client l = record l {
  saw_bytes = saw;
  dropped = dropped;
  capture = capture;
  to_server = to_server;
  to_client = to_client;
}

sum_zero : (rest k : ℕ) → 1 + rest + k ≤ 1 → 0 + rest + k ≡ 0
sum_zero rest k h = omega arith

one_less : (t : Bool) (rest k m : ℕ) → m ≤ k + 1 → Budget t (1 + rest + k) → Budget t (0 + rest + m)
one_less true rest k m h b = omega arith
one_less false rest k m h b = absurd (omega arith)

released :
    (t took : Bool) (rest k : ℕ)
    → took ≡ true
    → Budget t (1 + rest + k)
    → Budget (t && not took) (0 + rest + k)
released true true rest k e b = omega arith
released false true rest k e b = absurd (omega arith)
released t false rest k e b = absurd cc

pub same-Budget : (t : Bool) (a b : ℕ) → a ≡ b → Budget t a → Budget t b
same-Budget t a b e h = subst (Budget t) e h

hidden : (a r : Bool) → r ≡ true → a && not r ≡ false
hidden true true e = refl
hidden false true e = refl
hidden a false e = absurd cc

module _ (f : ProxyFactory) (l : Link) (o : f.one_shot ≡ true) (c : HasClaim l) where
  kept :
      (failed saw dropped : Bool) (w : Option CaptureWriter) (a z : Bytes)
      → Keeps f l (record f { capture_failed = failed }, touched saw dropped w a z l)
  unfolding Keeps
  kept failed saw dropped w a z = (o, c, λ rest b. b)

  captured :
      (tap : Tap) (bytes : Bytes) (saw : Bool) (w : CaptureWriter)
      → Keeps f l (after_capture f tap bytes (record l { saw_bytes = saw }) w)
  captured s2c bytes saw w =
      if_both (Keeps f l) (gave_up w) (λ e. kept true saw true none l.to_server l.to_client)
        (λ e. kept f.capture_failed saw l.dropped (some w) l.to_server (l.to_client ++ bytes))
  captured c2s bytes saw w =
      if_both (Keeps f l) (gave_up w) (λ e. kept true saw true none l.to_server l.to_client)
        (λ e. kept f.capture_failed saw l.dropped (some w) (l.to_server ++ bytes) l.to_client)

  recorded :
      (tap : Tap) (bytes : Bytes) (saw : Bool) (w : Option CaptureWriter)
      → Keeps f l (record_bytes f tap bytes (record l { saw_bytes = saw }) w)
  recorded s2c bytes saw none =
      kept f.capture_failed saw l.dropped l.capture l.to_server (l.to_client ++ bytes)
  recorded c2s bytes saw none =
      kept f.capture_failed saw l.dropped l.capture (l.to_server ++ bytes) l.to_client
  recorded tap bytes saw (some w) = captured tap bytes saw (feed_capture tap bytes w)

  pub hear_bytes-Keeps : (tap : Tap) (bytes : Bytes) → Keeps f l (hear_bytes f tap bytes l)
  unfolding hear_bytes
  hear_bytes-Keeps tap bytes =
      if_both (Keeps f l) l.refused
        (λ e. kept f.capture_failed l.saw_bytes l.dropped l.capture l.to_server l.to_client)
        (λ e. recorded tap bytes (l.saw_bytes || ltb 0 (length bytes)) l.capture)

  uncounted :
      l.refused ≡ true
      → (rest : ℕ) → one_if (is_served l) + rest + length f.archives ≡ 0 + rest + length f.archives
  uncounted r rest =
      ap (λ (n : ℕ). n + rest + length f.archives) (ap one_if (hidden l.live l.refused r))

  module _ (served : is_served l ≡ true) where
    counted :
        (rest : ℕ)
        → Budget f.session_taken (one_if (is_served l) + rest + length f.archives)
        → Budget f.session_taken (1 + rest + length f.archives)
    counted rest b =
        subst (λ (x : Bool). Budget f.session_taken (one_if x + rest + length f.archives)) served b

    finished :
        (written : Bool) (w : Option CaptureWriter)
        → Keeps f l (finish_session (write_capture written f l w))
    unfolding Keeps
    finished written none =
        (o, c, λ rest b. one_less f.session_taken rest _ _ (omega arith) (counted rest b))
    finished true (some w) = (
      o,
      c,
      λ rest b.
          one_less f.session_taken rest _ _ (omega (arith, length-append f.archives (flush w ∷ [])))
            (counted rest b),
    )
    finished false (some w) =
        (o, c, λ rest b. one_less f.session_taken rest _ _ (omega arith) (counted rest b))

    unclaimed :
        l.took_session ≡ true
        → Keeps f l (
          record f { session_taken = f.session_taken && not l.took_session },
          record l { live = false; capture = none },
        )
    unfolding Keeps
    unclaimed took =
        (o, c, λ rest b. released f.session_taken l.took_session rest _ took (counted rest b))

  taken_by : l.refused ≡ false → l.took_session ≡ true
  taken_by e = elim c [ inl r ↦ absurd cc | inr t ↦ t ]

  served_by : l.live ≡ true → l.refused ≡ false → is_served l ≡ true
  served_by e r = rw (e, r)

  unserved : l.refused ≡ true → Keeps f l (f, record l { live = false })
  unfolding Keeps
  unserved r = (o, c, λ rest b. same-Budget f.session_taken _ _ (uncounted r rest) b)

  pub lose_link-Keeps : (written : Bool) → l.live ≡ true → Keeps f l (lose_link written f l)
  unfolding lose_link
  lose_link-Keeps written e =
      if_both (Keeps f l) l.refused (λ r. unserved r)
        (λ r.
          if_both (Keeps f l) l.saw_bytes (λ s. finished (served_by e r) written l.capture)
            (λ s. unclaimed (served_by e r) (taken_by r)))
