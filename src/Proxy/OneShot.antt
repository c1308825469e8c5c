-- ===== src/Proxy/OneShot.antt =====
-- `--one-shot` of vncdotool/loggingproxy.py: who holds the session, and what is written of it.
use awc_remote.Base.{
  ℕ, zero, suc, ◌+◌, ◌≤◌, ◌≡◌, inl, inr, refl, Bool, true, false, ◌&&◌, ◌||◌, List, [], ◌∷◌, length,
  if_both, arith,
}
use awc_remote.Proxy.Links.{
  Link, ProxyFactory, accept, hear_bytes, lose_link, ProxyEvent, connects, sends, ends, on_link,
  proxy_step,
}
use awc_remote.Proxy.Claims.{
  is_served, one_if, count_served, Budget, HasClaim, Keeps, same-Budget, hear_bytes-Keeps,
  lose_link-Keeps,
}

-- A list of connections, whose claims the budget covers.
abbrev EachClaims : List Link → Type 0
EachClaims [] = Unit
EachClaims (l ∷ ls) = HasClaim l × EachClaims ls

unfoldable AllKeep : ProxyFactory → List Link → ProxyFactory × List Link → Type 0
AllKeep f ls (g, ms) =
    (g.one_shot ≡ true)
    × EachClaims ms
    × ((rest : ℕ)
        → Budget f.session_taken (count_served ls + rest + length f.archives)
        → Budget g.session_taken (count_served ms + rest + length g.archives))

here :
    (f : ProxyFactory) (l : Link) (ls : List Link) (r : ProxyFactory × Link)
    → EachClaims ls
    → Keeps f l r
    → AllKeep f (l ∷ ls) (r.0, r.1 ∷ ls)
unfolding Keeps AllKeep
here f l ls (g, m) c (o, d, k) = (
  o,
  (d, c),
  λ rest b.
      same-Budget g.session_taken _ _ (omega arith)
        (k (count_served ls + rest) (same-Budget f.session_taken _ _ (omega arith) b)),
)

there :
    (f : ProxyFactory) (l : Link) (ls : List Link) (r : ProxyFactory × List Link)
    → HasClaim l
    → AllKeep f ls r
    → AllKeep f (l ∷ ls) (r.0, l ∷ r.1)
unfolding AllKeep
there f l ls (g, ms) c (o, d, k) = (
  o,
  (c, d),
  λ rest b.
      same-Budget g.session_taken _ _ (omega arith)
        (k (one_if (is_served l) + rest) (same-Budget f.session_taken _ _ (omega arith) b)),
)

on_link-AllKeep :
    (op : ProxyFactory → Link → ProxyFactory × Link) (i : ℕ) (f : ProxyFactory) (ls : List Link)
    → f.one_shot ≡ true
    → EachClaims ls
    → ((l : Link) → HasClaim l → l.live ≡ true → Keeps f l (op f l))
    → AllKeep f ls (on_link op i f ls)
unfolding AllKeep
on_link-AllKeep op i f [] o c k = (o, tt, λ rest b. b)
on_link-AllKeep op zero f (l ∷ ls) o c k =
    if_both (AllKeep f (l ∷ ls)) l.live (λ e. here f l ls (op f l) c.1 (k l c.0 e))
      (λ e. (o, c, λ rest b. b))
on_link-AllKeep op (suc i) f (l ∷ ls) o c k =
    there f l ls (on_link op i f ls) c.0 (on_link-AllKeep op i f ls o c.1 k)

unclaimed_yet :
    (t shot : Bool) (c rest k : ℕ)
    → shot ≡ true
    → shot && t ≡ false
    → Budget t (c + rest + k)
    → Budget (t || shot) (1 + c + rest + k)
unclaimed_yet false true c rest k o e b = omega arith
unclaimed_yet true true c rest k o e b = absurd cc
unclaimed_yet t false c rest k o e b = absurd cc

accepted :
    (f : ProxyFactory) (ls : List Link)
    → f.one_shot ≡ true
    → EachClaims ls
    → AllKeep f ls ((accept f).0, (accept f).1 ∷ ls)
unfolding AllKeep accept
accepted f ls o c =
    if_both (λ (r : ProxyFactory × Link). AllKeep f ls (r.0, r.1 ∷ ls))
      (f.one_shot && f.session_taken)
      (λ e. (o, (inl refl, c), λ rest b. same-Budget f.session_taken _ _ (omega arith) b))
      (λ e. (
        o,
        (inr o, c),
        λ rest b. unclaimed_yet f.session_taken f.one_shot (count_served ls) rest _ o e b,
      ))

proxy_step-AllKeep :
    (e : ProxyEvent) (f : ProxyFactory) (ls : List Link)
    → f.one_shot ≡ true
    → EachClaims ls
    → AllKeep f ls (proxy_step e (f, ls))
unfolding proxy_step
proxy_step-AllKeep connects f ls o c = accepted f ls o c
proxy_step-AllKeep (sends tap i bytes) f ls o c =
    on_link-AllKeep (λ f l. hear_bytes f tap bytes l) i f ls o c
      (λ l d e. hear_bytes-Keeps f l o d tap bytes)
proxy_step-AllKeep (ends i written) f ls o c =
    on_link-AllKeep (lose_link written) i f ls o c (λ l d e. lose_link-Keeps f l o d written e)

abbrev pub run_proxy : List ProxyEvent → ProxyFactory × List Link → ProxyFactory × List Link
run_proxy [] w = w
run_proxy (e ∷ es) w = run_proxy es (proxy_step e w)

afterwards :
    (f : ProxyFactory) (ls : List Link) (s r : ProxyFactory × List Link)
    → AllKeep f ls s
    → (s.0.one_shot ≡ true → EachClaims s.1 → AllKeep s.0 s.1 r)
    → AllKeep f ls r
unfolding AllKeep
afterwards f ls (g, ms) (h, ns) (o, c, k) more =
    let m = more o c in (m.0, m.1, λ rest b. m.2 rest (k rest b))

run_proxy-AllKeep :
    (es : List ProxyEvent) (f : ProxyFactory) (ls : List Link)
    → f.one_shot ≡ true
    → EachClaims ls
    → AllKeep f ls (run_proxy es (f, ls))
unfolding AllKeep
run_proxy-AllKeep [] f ls o c = (o, c, λ rest b. b)
run_proxy-AllKeep (e ∷ es) f ls o c =
    afterwards f ls (proxy_step e (f, ls)) (run_proxy es (proxy_step e (f, ls)))
      (proxy_step-AllKeep e f ls o c) (λ p d. run_proxy-AllKeep es _ _ p d)

-- A proxy that was just started with `--one-shot`.
abbrev pub one_shot_factory : Bool → Bool → ProxyFactory
one_shot_factory capturing preserves = record {
  one_shot = true;
  capturing = capturing;
  preserves = preserves;
  session_taken = false;
  capture_failed = false;
  session_finished = false;
  archives = [];
}

within : (t : Bool) (a k : ℕ) → Budget t (a + 0 + k) → a + k ≤ 1
within true a k b = omega arith
within false a k b = omega arith

served_or_archived :
    (f : ProxyFactory) (r : ProxyFactory × List Link)
    → AllKeep f [] r
    → f.session_taken ≡ false
    → f.archives ≡ []
    → count_served r.1 + length r.0.archives ≤ 1
unfolding AllKeep
served_or_archived f (g, ms) (o, c, k) e n =
    within g.session_taken (count_served ms) (length g.archives) (k 0 (rw (e, n) (omega arith)))

-- However many clients connect to a proxy with `--one-shot`, and in whatever order they, the bytes of both sides and the ends of the
-- connections come, the connections that are served and the captures that have been written are at most one altogether.
pub run_proxy-one_shot :
    (es : List ProxyEvent) (capturing preserves : Bool)
    → count_served (run_proxy es (one_shot_factory capturing preserves, [])).1
        + length (run_proxy es (one_shot_factory capturing preserves, [])).0.archives
      ≤ 1
run_proxy-one_shot es capturing preserves =
    served_or_archived (one_shot_factory capturing preserves) _
      (run_proxy-AllKeep es (one_shot_factory capturing preserves) [] refl tt) refl refl
