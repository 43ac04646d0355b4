-- ===== src/Queries/Pages.antt =====
-- `list_subscriptions_by_subscriber` of queries.rs, and a client that follows its cursors.
use mathlib.Core.List.{append_assoc}
use stellabill_contracts.Prelude.{
  ℕ, zero, suc, ◌+◌, ◌-◌, ◌≤◌, ◌<◌, ◌≡◌, refl, ap, ◌∙◌, arith, Bool, true, false, Option, none,
  some, List, [], ◌∷◌, ◌++◌, nat_eq, get, ltb, unwrap_or, if◌then◌else◌, length, saturating_add_u32,
  max_u32, Map, ◌⊎◌, Bool-cases, inl, inr,
}
use stellabill_contracts.Types.Records.{Address, Subscription, SubscriptionsPage}
use stellabill_contracts.Host.State.{State}
use stellabill_contracts.Host.Calls.{Result, ok, err, trap}
use stellabill_contracts.Queries.{
  is_of, scan_subscriptions, page_by_subscriber, list_subscriptions_by_subscriber, earlier_id,
  is_bad_limit, max_scan_depth,
}

module _ (subs : Map ℕ Subscription) (subscriber : Address) where
  abbrev with_id : Bool → ℕ → List ℕ → List ℕ
  with_id true id ids = id ∷ ids
  with_id false id ids = ids

  -- The ids of the subscriber's subscriptions among `n` ids from `id` on.
  unfoldable pub owned : (n id : ℕ) → List ℕ
  owned zero id = []
  owned (suc n) id = with_id (is_of subscriber (get subs id)) id (owned n (suc id))

  -- The same from a cursor on.
  abbrev owned_from : ℕ → Option ℕ → List ℕ
  owned_from last none = []
  owned_from last (some c) = owned (last - c) c

  owned-next :
      (last id : ℕ)
      → id < last
      → owned (last - id) id
        ≡ with_id (is_of subscriber (get subs id)) id (owned (last - suc id) (suc id))
  unfolding owned
  owned-next last id h = let e : last - id ≡ suc (last - suc id) = omega arith in rw e refl

  -- What a scan leaves out is what its cursor leads to.
  scan-split :
      (limit : ℕ) (after : Option ℕ) (last n id : ℕ) (found : List ℕ)
      → id + n ≤ last
      → owned_from last after ≡ owned (last - (id + n)) (id + n)
      → let found_page = scan_subscriptions subs subscriber limit after n id found in
        found_page.subscription_ids ++ owned_from last found_page.next_start_id
        ≡ found ++ owned (last - id) id
  unfolding scan_subscriptions
  scan-split limit after last zero id found h e =
      let same : id + 0 ≡ id = omega arith in
      ap (◌++◌ found) (e ∙ ap (λ k. owned (last - k) k) same)
  scan-split limit after last (suc n) id found h e =
      let same : id + suc n ≡ suc id + n = omega arith in
      let shifted : owned_from last after ≡ owned (last - (suc id + n)) (suc id + n) =
        e ∙ ap (λ k. owned (last - k) k) same in
      ground (
        arith,
        owned-next last id (omega arith),
        scan-split limit after last n (suc id) found (omega arith) shifted,
        scan-split limit after last n (suc id) (found ++ id ∷ []) (omega arith) shifted,
        append_assoc found (id ∷ []) (owned (last - suc id) (suc id)),
      )

  end-owned :
      (scan_end last : ℕ)
      → scan_end ≤ last
      → owned_from last (if ltb scan_end last then some scan_end else none)
        ≡ owned (last - scan_end) scan_end
  unfolding owned
  end-owned scan_end last h = elim (Bool-cases (ltb scan_end last)) [
    | inl e ↦ rw e refl
    | inr e ↦ let none_left : last - scan_end ≡ 0 = ground arith in rw (e, none_left) refl
  ]

  -- A cursor is the one of the end, or lies past an id that was found.
  scan-cursor :
      (limit : ℕ) (after : Option ℕ) (n id c : ℕ) (found : List ℕ)
      → (scan_subscriptions subs subscriber limit after n id found).next_start_id ≡ some c
      → (after ≡ some c) ⊎ ((id ≤ c) × (limit ≤ length found ⊎ id < c) × (c < id + n))
  unfolding scan_subscriptions
  scan-cursor limit after zero id c found e = inl e
  scan-cursor limit after (suc n) id c found e = ground (
    arith,
    scan-cursor limit after n (suc id) c found,
    scan-cursor limit after n (suc id) c (found ++ id ∷ []),
  )

module _ {L : Type 0} (s : State L) (subscriber : Address) (limit : ℕ) where
  abbrev last_id : ℕ
  last_id = unwrap_or s.subscriptions.next_id 0

  abbrev rest : Option ℕ → List ℕ
  rest cursor = owned_from s.subscriptions.subs subscriber last_id cursor

  page-split :
      (start : ℕ)
      → start ≤ last_id
      → last_id ≤ max_u32
      → let found = page_by_subscriber s subscriber start limit in
        found.subscription_ids ++ rest found.next_start_id ≡ rest (some start)
  unfolding page_by_subscriber
  page-split start h m =
      let scan_end = earlier_id (saturating_add_u32 start max_scan_depth) last_id in
      let inside : (start ≤ scan_end) × (scan_end ≤ last_id) = ground arith in
      let e : start + (scan_end - start) ≡ scan_end = omega (arith, inside) in
      scan-split s.subscriptions.subs subscriber limit
        (if ltb scan_end last_id then some scan_end else none) last_id (scan_end - start) start []
        (omega (arith, inside, e))
        (rw e (end-owned s.subscriptions.subs subscriber scan_end last_id inside.1))

  page-cursor :
      (start c : ℕ)
      → 0 < limit
      → last_id ≤ max_u32
      → (page_by_subscriber s subscriber start limit).next_start_id ≡ some c
      → (start < c) × (c < last_id)
  unfolding page_by_subscriber length
  page-cursor start c p m e =
      let scan_end = earlier_id (saturating_add_u32 start max_scan_depth) last_id in
      ground (
        arith,
        scan-cursor s.subscriptions.subs subscriber limit
            (if ltb scan_end last_id then some scan_end else none) (scan_end - start) start c [],
      )

  -- What follows a page.
  abbrev continued : (ℕ → List ℕ) → Option ℕ → List ℕ
  continued more none = []
  continued more (some c) = more c

  -- The ids of a page, and of those that follow it.
  abbrev joined : (ℕ → List ℕ) → Result SubscriptionsPage → List ℕ
  joined more (ok found) = found.subscription_ids ++ continued more found.next_start_id
  joined more (err e) = []
  joined more trap = []

  -- A client that asks for at most `fuel` pages.
  unfoldable pub list_all : (fuel start : ℕ) → List ℕ
  list_all zero start = []
  list_all (suc fuel) start =
      joined (list_all fuel) (list_subscriptions_by_subscriber subscriber start limit s).0

  continued-rest :
      (cursor : Option ℕ) (more : ℕ → List ℕ)
      → ((c : ℕ) → cursor ≡ some c → more c ≡ rest (some c))
      → continued more cursor ≡ rest cursor
  continued-rest none more h = refl
  continued-rest (some c) more h = h c refl

  listed :
      (start : ℕ)
      → is_bad_limit limit ≡ false
      → (list_subscriptions_by_subscriber subscriber start limit s).0
        ≡ ok (page_by_subscriber s subscriber start limit)
  unfolding list_subscriptions_by_subscriber
  listed start h = rw h refl

  -- A client that follows the cursors of the listing, with a limit that the contract admits, sees
  -- all the ids of the subscriber's subscriptions from its start on, each once and in order; as many
  -- pages are enough as there are ids left, and one.
  pub list_all_complete :
      (fuel start : ℕ)
      → is_bad_limit limit ≡ false
      → last_id ≤ max_u32
      → start ≤ last_id
      → last_id - start < fuel
      → list_all fuel start ≡ owned s.subscriptions.subs subscriber (last_id - start) start
  unfolding list_all
  list_all_complete zero start b m h k = absurd (omega arith)
  list_all_complete (suc fuel) start b m h k =
      let found = page_by_subscriber s subscriber start limit in
      let follows = continued-rest found.next_start_id (list_all fuel) λ c e.
        let inside = page-cursor start c (ground arith) m e in
        list_all_complete fuel c b m (omega (arith, inside)) (omega (arith, inside)) in
      rw (listed start b) (ap (◌++◌ found.subscription_ids) follows ∙ page-split start h m)
