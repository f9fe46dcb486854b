-- ===== src/Livox/Ids.antt =====
-- Lidar ids (handleToLidarId) and the set of serial numbers: ranks, positions and insertion.
use mandeye_controller.Prelude.{
  ℕ, suc, ◌+◌, ◌≤◌, ◌<◌, ◌≡◌, ◌≢◌, refl, sym, ap, ◌∙◌, inl, inr, true, false, some, List, [], ◌∷◌,
  arith, Text, text_eq, text_eq_refl, text_eq_eq, text_lt, text_lt_irrefl, text_lt_trans,
  text_lt_total, if◌then◌else◌, Bool-cases, All, Among, All-among, length, get_elem?, some-eq,
}
use mandeye_controller.Livox.{distance, insert_sn}

-- Strictly increasing: what std::set keeps.
unfoldable pub IsSorted : List Text → Type 0
IsSorted [] = Unit
IsSorted (t ∷ ts) = All (λ u. text_lt t u ≡ true) ts × IsSorted ts

-- How many serial numbers of the set are smaller.
pub rank : Text → List Text → ℕ
rank sn [] = 0
rank sn (t ∷ ts) = if text_lt t sn then suc (rank sn ts) else rank sn ts

text_lt_asymm : (s t : Text) → text_lt s t ≡ true → text_lt t s ≡ false
text_lt_asymm s t h = ground (arith, text_lt_trans s t s, text_lt_irrefl s)

text_eq_ne : (s t : Text) → text_eq s t ≡ false → s ≢ t
text_eq_ne s t h e = ground (arith, text_eq_refl s)

All-mono {κ μ} :
    {P : Text → Type κ} {Q : Text → Type μ}
    → ((t : Text) → P t → Q t)
    → (ts : List Text) → All P ts
    → All Q ts
All-mono f [] h = tt
All-mono f (t ∷ ts) h = (f t h.0, All-mono f ts h.1)

pub rank_above : (sn : Text) (ts : List Text) → All (λ u. text_lt sn u ≡ true) ts → rank sn ts ≡ 0
unfolding rank
rank_above sn [] h = refl
rank_above sn (t ∷ ts) h = ground (arith, text_lt_asymm sn t h.0, rank_above sn ts h.1)

pub distance-rank :
    (sn : Text) (ts : List Text) → IsSorted ts → Among sn ts → distance sn ts ≡ rank sn ts
unfolding distance rank IsSorted
distance-rank sn [] s m = absurd m
distance-rank sn (t ∷ ts) s m = elim (Bool-cases (text_eq t sn)) [
  | inl e ↦
      let same : t ≡ sn = text_eq_eq t sn e in
      rw (e, same) (rw (text_lt_irrefl sn) (sym (rank_above sn ts (rw same at s.0))))
  | inr e ↦ elim m [
    | inl same ↦ absurd (text_eq_ne t sn e same)
    | inr m' ↦ rw (e, All-among (λ u. text_lt t u ≡ true) sn ts s.0 m', distance-rank sn ts s.1 m')
  ]
]

pub distance-lt-length : (sn : Text) (ts : List Text) → Among sn ts → distance sn ts < length ts
unfolding distance
distance-lt-length sn [] m = absurd m
distance-lt-length sn (t ∷ ts) m = elim m [
  | inl e ↦ rw e (rw (text_eq_refl sn) (omega arith))
  | inr m' ↦ ground (arith, distance-lt-length sn ts m')
]

get_elem?-distance :
    (sn : Text) (ts : List Text) → Among sn ts → get_elem? ts (distance sn ts) ≡ some sn
unfolding distance
get_elem?-distance sn [] m = absurd m
get_elem?-distance sn (t ∷ ts) m = elim (Bool-cases (text_eq t sn)) [
  | inl e ↦ rw e (ap some (text_eq_eq t sn e))
  | inr e ↦ elim m [
    | inl same ↦ absurd (text_eq_ne t sn e same)
    | inr m' ↦ rw e (get_elem?-distance sn ts m')
  ]
]

pub distance-injective :
    (s t : Text) (ts : List Text) → Among s ts → Among t ts → distance s ts ≡ distance t ts → s ≡ t
distance-injective s t ts m k e =
    some-eq (sym (get_elem?-distance s ts m) ∙ ap (get_elem? ts) e ∙ get_elem?-distance t ts k)

All-insert_sn {κ} :
    (P : Text → Type κ) (sn : Text) (ts : List Text) → P sn → All P ts → All P (insert_sn sn ts)
unfolding insert_sn
All-insert_sn P sn [] p h = (p, tt)
All-insert_sn P sn (t ∷ ts) p h = elim (Bool-cases (text_eq t sn)) [
  | inl e ↦ rw e h
  | inr e ↦ elim (Bool-cases (text_lt sn t)) [
    | inl l ↦ rw (e, l) (p, h)
    | inr l ↦ rw (e, l) (h.0, All-insert_sn P sn ts p h.1)
  ]
]

pub insert_sn-IsSorted : (sn : Text) (ts : List Text) → IsSorted ts → IsSorted (insert_sn sn ts)
unfolding insert_sn IsSorted
insert_sn-IsSorted sn [] s = (tt, tt)
insert_sn-IsSorted sn (t ∷ ts) s = elim (Bool-cases (text_eq t sn)) [
  | inl e ↦ rw e s
  | inr e ↦ elim (Bool-cases (text_lt sn t)) [
    | inl l ↦ rw (e, l) ((l, All-mono (λ u h. text_lt_trans sn t u l h) ts s.0), s)
    | inr l ↦ rw (e, l) (All-insert_sn _ sn ts (above l e) s.0, insert_sn-IsSorted sn ts s.1)
  ]
]
  where
    above : text_lt sn t ≡ false → text_eq t sn ≡ false → text_lt t sn ≡ true
    above l e = elim (Bool-cases (text_lt t sn)) [
      | inl h ↦ h
      | inr h ↦ absurd (text_eq_ne t sn e (text_lt_total t sn h l))
    ]

pub Among-insert_sn_self : (sn : Text) (ts : List Text) → Among sn (insert_sn sn ts)
unfolding insert_sn
Among-insert_sn_self sn [] = inl refl
Among-insert_sn_self sn (t ∷ ts) = elim (Bool-cases (text_eq t sn)) [
  | inl e ↦ rw e (inl (text_eq_eq t sn e))
  | inr e ↦ elim (Bool-cases (text_lt sn t)) [
    | inl l ↦ rw (e, l) (inl refl)
    | inr l ↦ rw (e, l) (inr (Among-insert_sn_self sn ts))
  ]
]

pub Among-insert_sn : (sn s : Text) (ts : List Text) → Among s ts → Among s (insert_sn sn ts)
unfolding insert_sn
Among-insert_sn sn s [] m = absurd m
Among-insert_sn sn s (t ∷ ts) m = elim (Bool-cases (text_eq t sn)) [
  | inl e ↦ rw e m
  | inr e ↦ elim (Bool-cases (text_lt sn t)) [
    | inl l ↦ rw (e, l) (inr m)
    | inr l ↦ rw (e, l) (elim m [ inl h ↦ inl h | inr h ↦ inr (Among-insert_sn sn s ts h) ])
  ]
]

-- A serial number that is new and smaller moves a rank up by one; any other leaves it.
pub rank-insert_sn :
    (sn s : Text) (ts : List Text)
    → IsSorted ts
    → (Among sn ts → ⊥)
    → rank s (insert_sn sn ts) ≡ (if text_lt sn s then suc (rank s ts) else rank s ts)
unfolding insert_sn rank IsSorted
rank-insert_sn sn s [] o fresh = refl
rank-insert_sn sn s (t ∷ ts) o fresh = elim (Bool-cases (text_eq t sn)) [
  | inl e ↦ absurd (fresh (inl (text_eq_eq t sn e)))
  | inr e ↦ ground (arith, e, rank-insert_sn sn s ts o.1 (λ m. fresh (inr m)))
]

pub length-insert_sn-le : (sn : Text) (ts : List Text) → length (insert_sn sn ts) ≤ length ts + 1
unfolding insert_sn
length-insert_sn-le sn [] = omega arith
length-insert_sn-le sn (t ∷ ts) = ground (arith, length-insert_sn-le sn ts)
