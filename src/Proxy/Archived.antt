-- ===== src/Proxy/Archived.antt =====
-- The captures that vncdotool/loggingproxy.py writes, and those that it drops.
use awc_remote.Base.{
  ℕ, zero, suc, ◌≡◌, refl, ◌∙◌, Bool, true, false, ◌&&◌, ◌||◌, Bytes, Option, none, some, List, [],
  ◌∷◌, ◌++◌, length, ltb, if_both,
}
use awc_remote.Capture.{Tap, s2c, c2s, CaptureWriter, feed_capture, flush, flush_tap}
use awc_remote.Capture.Handshake.{run}
use awc_remote.Proxy.Links.{
  Link, ProxyFactory, served_link, accept, gave_up, forward, record_bytes, hear_bytes,
  write_capture, finish_session, lose_link, ProxyEvent, connects, sends, ends, on_link, proxy_step,
}
use awc_remote.Proxy.OneShot.{run_proxy}

-- No capture that the handshake's grammar has given up.
abbrev pub EachClear : List CaptureWriter → Type 0
EachClear [] = Unit
EachClear (w ∷ ws) = (gave_up w ≡ false) × EachClear ws

abbrev CaptureClear : Option CaptureWriter → Type 0
CaptureClear none = Unit
CaptureClear (some w) = gave_up w ≡ false

abbrev pub LinksClear : List Link → Type 0
LinksClear [] = Unit
LinksClear (l ∷ ls) = CaptureClear l.capture × LinksClear ls

unfoldable Clear : ProxyFactory × Link → Type 0
Clear (f, l) = EachClear f.archives × CaptureClear l.capture

append-EachClear :
    (ws : List CaptureWriter) (w : CaptureWriter)
    → EachClear ws
    → gave_up w ≡ false
    → EachClear (ws ++ w ∷ [])
append-EachClear [] w c e = (e, tt)
append-EachClear (v ∷ ws) w c e = (c.0, append-EachClear ws w c.1 e)

gave_up-flush : (w : CaptureWriter) → gave_up (flush w) ≡ gave_up w
unfolding flush flush_tap
gave_up-flush w = refl

module _ (f : ProxyFactory) (a : EachClear f.archives) (l : Link) where
  forwarded :
      (tap : Tap) (bytes : Bytes) (m : Link)
      → CaptureClear m.capture
      → Clear (f, forward tap bytes m)
  unfolding Clear
  forwarded s2c bytes m c = (a, c)
  forwarded c2s bytes m c = (a, c)

  recorded :
      (tap : Tap) (bytes : Bytes) (m : Link) (w : Option CaptureWriter)
      → CaptureClear m.capture
      → Clear (record_bytes f tap bytes m w)
  unfolding Clear
  recorded tap bytes m none c = forwarded tap bytes m c
  recorded tap bytes m (some w) c =
      if_both Clear (gave_up (feed_capture tap bytes w)) (λ e. (a, tt))
        (λ e. forwarded tap bytes (record m { capture = some (feed_capture tap bytes w) }) e)

  heard : (tap : Tap) (bytes : Bytes) → CaptureClear l.capture → Clear (hear_bytes f tap bytes l)
  unfolding Clear hear_bytes
  heard tap bytes c =
      if_both Clear l.refused (λ e. (a, c))
        (λ e.
          recorded tap bytes (record l { saw_bytes = l.saw_bytes || ltb 0 (length bytes) })
            l.capture c)

  written_off :
      (written : Bool) (w : Option CaptureWriter)
      → CaptureClear w
      → CaptureClear l.capture
      → Clear (finish_session (write_capture written f l w))
  unfolding Clear
  written_off written none c d = (a, d)
  written_off true (some w) c d =
      (append-EachClear f.archives (flush w) a (gave_up-flush w ∙ c), tt)
  written_off false (some w) c d = (a, d)

  lost : (written : Bool) → CaptureClear l.capture → Clear (lose_link written f l)
  unfolding Clear lose_link
  lost written c =
      if_both Clear l.refused (λ e. (a, c))
        (λ e. if_both Clear l.saw_bytes (λ s. written_off written l.capture c c) (λ s. (a, tt)))

unfoldable AllClear : ProxyFactory × List Link → Type 0
AllClear (f, ls) = EachClear f.archives × LinksClear ls

on_link-AllClear :
    (op : ProxyFactory → Link → ProxyFactory × Link) (i : ℕ) (f : ProxyFactory) (ls : List Link)
    → EachClear f.archives
    → LinksClear ls
    → ((l : Link) → CaptureClear l.capture → Clear (op f l))
    → AllClear (on_link op i f ls)
unfolding AllClear Clear
on_link-AllClear op i f [] a c k = (a, tt)
on_link-AllClear op zero f (l ∷ ls) a c k =
    if_both AllClear l.live (λ e. let r = k l c.0 in (r.0, (r.1, c.1))) (λ e. (a, c))
on_link-AllClear op (suc i) f (l ∷ ls) a c k =
    let r = on_link-AllClear op i f ls a c.1 k in (r.0, (c.0, r.1))

opened : (f : ProxyFactory) → CaptureClear (served_link f).capture
unfolding run
opened f = if_both CaptureClear f.capturing (λ e. refl) (λ e. tt)

step-AllClear :
    (e : ProxyEvent) (f : ProxyFactory) (ls : List Link)
    → EachClear f.archives
    → LinksClear ls
    → AllClear (proxy_step e (f, ls))
unfolding proxy_step accept AllClear
step-AllClear connects f ls a c =
    if_both (λ (r : ProxyFactory × Link). AllClear (r.0, r.1 ∷ ls)) (f.one_shot && f.session_taken)
      (λ e. (a, (tt, c))) (λ e. (a, (opened f, c)))
step-AllClear (sends tap i bytes) f ls a c =
    on_link-AllClear (λ f l. hear_bytes f tap bytes l) i f ls a c (λ l d. heard f a l tap bytes d)
step-AllClear (ends i written) f ls a c =
    on_link-AllClear (lose_link written) i f ls a c (λ l d. lost f a l written d)

run_proxy-AllClear :
    (es : List ProxyEvent) (w : ProxyFactory × List Link) → AllClear w → AllClear (run_proxy es w)
unfolding AllClear
run_proxy-AllClear [] w h = h
run_proxy-AllClear (e ∷ es) (f, ls) (a, c) =
    run_proxy-AllClear es (proxy_step e (f, ls)) (step-AllClear e f ls a c)

-- A proxy without connections that has written no capture which it had to give up writes none: whatever comes, each capture that
-- is in an archive afterwards is one that the handshake's grammar has not given up, and so is each that is under way.
pub run_proxy-EachClear :
    (es : List ProxyEvent) (f : ProxyFactory)
    → EachClear f.archives
    → EachClear (run_proxy es (f, [])).0.archives × LinksClear (run_proxy es (f, [])).1
unfolding AllClear
run_proxy-EachClear es f a = run_proxy-AllClear es (f, []) (a, tt)
