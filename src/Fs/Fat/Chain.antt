-- ===== src/Fs/Fat/Chain.antt =====
-- `cluster_chain` finds the chain of a file exactly where the table holds one that fits the volume.
use tarn_os.Prelude.{
  ℕ, zero, suc, ◌≤◌, ◌<◌, ◌≡◌, ◌≢◌, ◌↔◌, inl, inr, refl, sym, ap, subst, ◌∙◌, true, false, ◌||◌,
  List, [], ◌∷◌, some, arith, length, get_elem?, drop, length-drop, leb, ltb, ◌==◌, Bool-cases,
  leb→le, get_elem?-some,
}
use tarn_os.Fs.Fat.{
  FatError, corrupt_fat, Result, ok, err, Fat12Volume, fat12_entry, Next, stop, fail, follow, judge,
  next_cluster, cons_ok, extended, chain_from, cluster_chain,
}

-- The clusters of a file, from one of them on, as the table links them: each is a data cluster, an
-- entry of 0xff8 or more ends the chain, and any other that marks neither a free nor a bad cluster
-- names the next cluster.
pub data IsChain (fat : List ℕ) : ℕ → List ℕ → Type 0 where
  last :
      {c : ℕ} (entry : ℕ)
      → 2 ≤ c
      → fat12_entry fat c ≡ ok entry
      → 0xff8 ≤ entry
      → IsChain fat c (c ∷ [])
  link :
      {c : ℕ} {cs : List ℕ} (next : ℕ)
      → 2 ≤ c
      → fat12_entry fat c ≡ ok next
      → next < 0xff8
      → next ≢ 0
      → next ≢ 0xff7
      → IsChain fat next cs
      → IsChain fat c (c ∷ cs)

module _ (fat : List ℕ) where
  -- What `next_cluster` answers, with what the table holds.
  data Entry (c : ℕ) : Next → Type 0 where
    ends : (entry : ℕ) → fat12_entry fat c ≡ ok entry → 0xff8 ≤ entry → Entry c stop
    bad : (e : FatError) → e ≡ corrupt_fat → Entry c (fail e)
    goes :
        (next : ℕ)
        → fat12_entry fat c ≡ ok next
        → next < 0xff8
        → next ≢ 0
        → next ≢ 0xff7
        → Entry c (follow next)

  fat12_entry-err : (c : ℕ) {e : FatError} → fat12_entry fat c ≡ err e → e ≡ corrupt_fat
  unfolding fat12_entry
  fat12_entry-err c h = ground arith

  judge-Entry : (c : ℕ) (r : Result ℕ) → fat12_entry fat c ≡ r → Entry c (judge r)
  judge-Entry c (err e) h = bad e (fat12_entry-err c h)
  judge-Entry c (ok next) h = elim (Bool-cases (leb 0xff8 next)) [
    | inl high ↦ rw high (ends next h (leb→le 0xff8 next high))
    | inr low ↦ elim (Bool-cases (next == 0 || next == 0xff7)) [
      | inl marked ↦ rw (low, marked) (bad corrupt_fat refl)
      | inr data_cluster ↦
          rw (low, data_cluster) (goes next h (ground arith) (ground arith) (ground arith))
    ]
  ]

  next_cluster-Entry : (c : ℕ) → Entry c (next_cluster fat c)
  unfolding next_cluster
  next_cluster-Entry c = judge-Entry c (fat12_entry fat c) refl

  cons_ok_inv :
      (c : ℕ) (r : Result (List ℕ)) (cs : List ℕ)
      → cons_ok c r ≡ ok cs
      → (ds : List ℕ) × (r ≡ ok ds) × (cs ≡ c ∷ ds)
  cons_ok_inv c (ok ds) cs h = (ds, refl, cc)
  cons_ok_inv c (err e) cs h = cc

  -- One round of the loop, from what the later rounds find.
  abbrev Sound : ℕ → ℕ → List ℕ → Type 0
  Sound left c cs = IsChain fat c cs × (length cs ≤ left)

  round-Sound :
      (left c : ℕ) (cs : List ℕ)
      → 2 ≤ c
      → ((n : ℕ) (ds : List ℕ) → chain_from left fat n ≡ ok ds → Sound left n ds)
      → (a : Next) → Entry c a
      → extended c a (chain_from left fat) ≡ ok cs
      → Sound (suc left) c cs
  round-Sound left c cs h ih _ (ends entry d e) q =
      let same : c ∷ [] ≡ cs = cc in subst (Sound (suc left) c) same (last entry h d e, omega arith)
  round-Sound left c cs h ih _ (bad e same) q = cc
  round-Sound left c cs h ih _ (goes next d e a b) q =
      let (ds, r, same) = cons_ok_inv c (chain_from left fat next) cs q in
      let (chain, short) = ih next ds r in
      subst (Sound (suc left) c) (sym same) (link next h d e a b chain, omega arith)

  chain_from-Sound : (left c : ℕ) (cs : List ℕ) → chain_from left fat c ≡ ok cs → Sound left c cs
  unfolding chain_from
  chain_from-Sound zero c cs e = cc
  chain_from-Sound (suc left) c cs e = elim (Bool-cases (ltb c 2)) [
    | inl low ↦ let no_chain : err corrupt_fat ≡ ok cs = rw low at e in cc
    | inr high ↦
        round-Sound left c cs (ground arith) (chain_from-Sound left) (next_cluster fat c)
          (next_cluster-Entry c) (rw high at e)
  ]

  chain_from_complete :
      {cs : List ℕ} (left c : ℕ)
      → IsChain fat c cs
      → length cs ≤ left
      → chain_from left fat c ≡ ok cs
  unfolding chain_from next_cluster
  chain_from_complete zero c (last entry d e h) l = absurd (omega arith)
  chain_from_complete zero c (link next d e a b f ch) l = absurd (omega arith)
  chain_from_complete (suc left) c (last entry d e h) l =
      let small : ltb c 2 ≡ false = ground arith in
      let high : leb 0xff8 entry ≡ true = ground arith in rw (small, e, chain_from, high)
  chain_from_complete (suc left) c (link next d e a b f ch) l =
      let small : ltb c 2 ≡ false = ground arith in
      let low : leb 0xff8 next ≡ false = ground arith in
      let ordinary : (next == 0 || next == 0xff7) ≡ false = ground arith in
      rw (small, e, low, ordinary, chain_from_complete left next ch (omega arith))

-- The chain from a cluster is the only one.
IsChain-unique :
    (fat : List ℕ) {c : ℕ} {xs ys : List ℕ} → IsChain fat c xs → IsChain fat c ys → xs ≡ ys
IsChain-unique fat (last e h d f) (last e' h' d' f') = refl
IsChain-unique fat (last e h d f) (link n h' d' l a b ch) = absurd (high_low f l (sym d ∙ d'))
  where
    high_low : {e n : ℕ} → 0xff8 ≤ e → n < 0xff8 → ok e ≡ ok n → ⊥
    high_low p q h = ground arith
IsChain-unique fat (link n h d l a b ch) (last e h' d' f) = absurd (high_low f l (sym d' ∙ d))
  where
    high_low : {e n : ℕ} → 0xff8 ≤ e → n < 0xff8 → ok e ≡ ok n → ⊥
    high_low p q h = ground arith
IsChain-unique fat {c = c} (link n h d l a b ch) (link {cs = more} m h' d' l' a' b' ch') =
    let same : m ≡ n = cc in
    ap (◌∷◌ c) (IsChain-unique fat ch (subst (λ k. IsChain fat k more) same ch'))

-- The chain from any cluster of a chain is the rest of it.
IsChain-drop :
    (fat : List ℕ) (i : ℕ) {c x : ℕ} {cs : List ℕ}
    → IsChain fat c cs
    → get_elem? cs i ≡ some x
    → IsChain fat x (drop i cs)
IsChain-drop fat zero {c} {x} (last entry h d f) e =
    let same : c ≡ x = cc in subst (λ k. IsChain fat k (c ∷ [])) same (last entry h d f)
IsChain-drop fat (suc i) (last entry h d f) e = cc
IsChain-drop fat zero {c} {x} (link {cs = cs} n h d l a b ch) e =
    let same : c ≡ x = cc in subst (λ k. IsChain fat k (c ∷ cs)) same (link n h d l a b ch)
IsChain-drop fat (suc i) (link n h d l a b ch) e = IsChain-drop fat i ch e

-- A file's chain names no cluster twice.
IsChain-no_repeat :
    (fat : List ℕ) (i j x : ℕ) {c : ℕ} {cs : List ℕ}
    → IsChain fat c cs
    → get_elem? cs i ≡ some x
    → get_elem? cs j ≡ some x
    → i ≡ j
IsChain-no_repeat fat i j x {cs = cs} ch p q = omega (
  arith,
  ap length (IsChain-unique fat (IsChain-drop fat i ch p) (IsChain-drop fat j ch q)),
  length-drop i cs,
  length-drop j cs,
  get_elem?-some cs i p,
  get_elem?-some cs j q,
)

-- `cluster_chain` returns a list exactly when the list is the file's chain and has no more clusters
-- than the volume.
pub cluster_chain_iff :
    (v : Fat12Volume) (fat : List ℕ) (start : ℕ) (cs : List ℕ)
    → (cluster_chain v fat start ≡ ok cs) ↔ (IsChain fat start cs × (length cs ≤ v.total_clusters))
unfolding cluster_chain
cluster_chain_iff v fat start cs = (
  chain_from-Sound fat v.total_clusters start cs,
  λ (chain, short). chain_from_complete fat v.total_clusters start chain short,
)

-- No cluster stands twice in a list that `cluster_chain` returns: a table whose links run in a
-- circle has no answer.
pub cluster_chain-no_repeat :
    (v : Fat12Volume) (fat : List ℕ) (start i j x : ℕ) (cs : List ℕ)
    → cluster_chain v fat start ≡ ok cs
    → get_elem? cs i ≡ some x
    → get_elem? cs j ≡ some x
    → i ≡ j
cluster_chain-no_repeat v fat start i j x cs h p q =
    IsChain-no_repeat fat i j x ((cluster_chain_iff v fat start cs).0 h).0 p q
