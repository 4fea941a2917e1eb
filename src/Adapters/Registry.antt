-- ===== src/Adapters/Registry.antt =====
-- adapter.go, the registry of vendors: a vendor is registered once, in one mode.
use clappform_sensor_things.Adapters.{PollAdapter, PushAdapter}
use clappform_sensor_things.Prelude.{
  List, Option, String, [], length, look, none, put, some, ℕ, ◌++◌, ◌+◌, ◌∷◌, All, arith, eq_iff,
  look-put, ◌≡◌, subst, sym, All-append, All-map, and_some, and_some-elim, refl, ◌∙◌, ◌≢◌, Bool, ap,
  false, str_eq, true,
}

pub record Registry (W : Type 0) : Type 0 where
  pub poll : List (PollAdapter W)
  pub push : List PushAdapter
  pub push_by_vendor : List (String × PushAdapter)
  pub vendors : List (String × String)

unfoldable pub new_registry : {W : Type 0} → Registry W
new_registry = record { poll = []; push = []; push_by_vendor = []; vendors = [] }

-- The map of modes after a claim; `none` is the panic on a duplicate.
unfoldable pub claim : {W : Type 0} → Registry W → String → String → Option (List (String × String))
unfolding look put
claim r vendor mode = elim (look vendor r.vendors) [
  | some existing ↦ none
  | none ↦ some (put vendor mode r.vendors)
]

unfoldable pub register_poll : {W : Type 0} → Registry W → PollAdapter W → Option (Registry W)
unfolding claim
register_poll r a =
    and_some (claim r a.vendor_id "poll")
      λ modes. some (record r { vendors = modes; poll = r.poll ++ (a ∷ []) })

unfoldable pub register_push : {W : Type 0} → Registry W → PushAdapter → Option (Registry W)
unfolding claim put
register_push r a = and_some (claim r a.vendor_id "push") λ modes. some (record r {
  vendors = modes;
  push = r.push ++ (a ∷ []);
  push_by_vendor = put a.vendor_id a r.push_by_vendor;
})

unfoldable pub push_adapter : {W : Type 0} → Registry W → String → Option PushAdapter
unfolding look
push_adapter r vendor = look vendor r.push_by_vendor

unfoldable pub len : {W : Type 0} → Registry W → ℕ
len r = length r.poll + length r.push

-- What main does at startup.
pub data Registration (W : Type 0) : Type 0 where
  by_poll : PollAdapter W → Registration W
  by_push : PushAdapter → Registration W

unfoldable pub register_all :
    {W : Type 0} → Registry W → List (Registration W) → Option (Registry W)
unfolding register_poll register_push
register_all r [] = some r
register_all r (by_poll a ∷ rs) = and_some (register_poll r a) λ r'. register_all r' rs
register_all r (by_push a ∷ rs) = and_some (register_push r a) λ r'. register_all r' rs

-- What the map of modes says of a poll adapter, and of a registry: every poll adapter's vendor has
-- the mode poll, and every vendor that push_adapter knows, push.
abbrev HasMode : {W : Type 0} → List (String × String) → String → PollAdapter W → Type 0
HasMode modes mode a = look a.vendor_id modes ≡ some mode

abbrev Partitioned : {W : Type 0} → Registry W → Type 0
Partitioned r =
    All (HasMode r.vendors "poll") r.poll
    × ((v : String) (a : PushAdapter)
        → look v r.push_by_vendor ≡ some a
        → look v r.vendors ≡ some "push")

HasMode-put :
    {W : Type 0} (modes : List (String × String)) (vendor mode : String) (xs : List (PollAdapter W))
    → look vendor modes ≡ none
    → All (HasMode modes "poll") xs
    → All (HasMode (put vendor mode modes) "poll") xs
HasMode-put modes vendor mode [] h k = tt
HasMode-put modes vendor mode (a ∷ xs) h k = (
  ground (arith, look-put vendor a.vendor_id mode modes, eq_iff vendor a.vendor_id, k.0),
  HasMode-put modes vendor mode xs h k.1,
)

-- A claim that succeeds: the vendor was new, and has the mode then.
claim-some :
    {W : Type 0} (r : Registry W) (vendor mode : String) (modes : List (String × String))
    → claim r vendor mode ≡ some modes
    → (look vendor r.vendors ≡ none) × (modes ≡ put vendor mode r.vendors)
unfolding claim
claim-some r vendor mode modes h = ground arith

look-put-same :
    {V : Type 0} (k : String) (v : V) (m : List (String × V)) → look k (put k v m) ≡ some v
look-put-same k v m = ground (arith, look-put k k v m, eq_iff k k)

register_poll-Partitioned :
    {W : Type 0} (r : Registry W) (a : PollAdapter W) (modes : List (String × String))
    → Partitioned r
    → look a.vendor_id r.vendors ≡ none
    → modes ≡ put a.vendor_id "poll" r.vendors
    → Partitioned (record r { vendors = modes; poll = r.poll ++ (a ∷ []) })
register_poll-Partitioned r a modes h new k =
    subst (λ m. Partitioned (record r { vendors = m; poll = r.poll ++ (a ∷ []) })) (sym k)
      (
        All-append (HasMode (put a.vendor_id "poll" r.vendors) "poll") r.poll (a ∷ [])
            (HasMode-put r.vendors a.vendor_id "poll" r.poll new h.0)
            (look-put-same a.vendor_id "poll" r.vendors, tt),
        λ v b e.
            ground
              (arith, look-put a.vendor_id v "poll" r.vendors, eq_iff a.vendor_id v, h.1 v b e),
      )

register_push-Partitioned :
    {W : Type 0} (r : Registry W) (a : PushAdapter) (modes : List (String × String))
    → Partitioned r
    → look a.vendor_id r.vendors ≡ none
    → modes ≡ put a.vendor_id "push" r.vendors
    → Partitioned (record r {
      vendors = modes;
      push = r.push ++ (a ∷ []);
      push_by_vendor = put a.vendor_id a r.push_by_vendor;
    })
register_push-Partitioned r a modes h new k =
    subst
      (λ m. Partitioned (record r {
        vendors = m;
        push = r.push ++ (a ∷ []);
        push_by_vendor = put a.vendor_id a r.push_by_vendor;
      }))
      (sym k)
      (
        HasMode-put r.vendors a.vendor_id "push" r.poll new h.0,
        λ v b e. ground (
          arith,
          look-put a.vendor_id v "push" r.vendors,
          look-put a.vendor_id v a r.push_by_vendor,
          eq_iff a.vendor_id v,
          h.1 v b,
        ),
      )

some-equal : {A : Type 0} {a b : A} → some a ≡ some b → a ≡ b
some-equal h = cc

register_all-Partitioned :
    {W : Type 0} (rs : List (Registration W)) (r : Registry W) {r' : Registry W}
    → Partitioned r
    → register_all r rs ≡ some r'
    → Partitioned r'
unfolding register_all register_poll register_push
register_all-Partitioned [] r h e = subst Partitioned (some-equal e) h
register_all-Partitioned (by_poll a ∷ rs) r {r'} h e =
    and_some-elim (Partitioned r') (register_poll r a) (λ r₁. register_all r₁ rs) e
      λ r₁ e₁ e₂.
        register_all-Partitioned rs r₁
          (and_some-elim (Partitioned r₁) (claim r a.vendor_id "poll") _ e₁ λ modes c k.
            let new = claim-some r a.vendor_id "poll" modes c in
            subst Partitioned (some-equal k) (register_poll-Partitioned r a modes h new.0 new.1))
          e₂
register_all-Partitioned (by_push a ∷ rs) r {r'} h e =
    and_some-elim (Partitioned r') (register_push r a) (λ r₁. register_all r₁ rs) e
      λ r₁ e₁ e₂.
        register_all-Partitioned rs r₁
          (and_some-elim (Partitioned r₁) (claim r a.vendor_id "push") _ e₁ λ modes c k.
            let new = claim-some r a.vendor_id "push" modes c in
            subst Partitioned (some-equal k) (register_push-Partitioned r a modes h new.0 new.1))
          e₂

unknown-elim : {A : Type 0} (x : Option A) → ((a : A) → x ≢ some a) → x ≡ none
unknown-elim none h = refl
unknown-elim (some a) h = absurd (h a refl)

abbrev is_poll : Option String → Bool
is_poll none = false
is_poll (some s) = str_eq s "poll"

differ : {s t : Option String} → s ≡ some "poll" → t ≡ some "push" → s ≢ t
differ h k e = let b : true ≡ false = ap is_poll (sym h ∙ e ∙ k) in cc

unanswered :
    {W : Type 0} (r : Registry W) (v : String)
    → look v r.vendors ≡ some "poll"
    → ((a : PushAdapter) → look v r.push_by_vendor ≡ some a → look v r.vendors ≡ some "push")
    → push_adapter r v ≡ none
unfolding push_adapter
unanswered r v h k = unknown-elim (look v r.push_by_vendor) λ a e. differ h (k a e) refl

-- A registry that startup built without a panic: no poll adapter's vendor answers on the push
-- endpoint.
pub register_all_exclusive :
    {W : Type 0} (rs : List (Registration W)) {r : Registry W}
    → register_all new_registry rs ≡ some r
    → All (λ (a : PollAdapter W). push_adapter r a.vendor_id ≡ none) r.poll
unfolding push_adapter new_registry
register_all_exclusive rs {r} e =
    let end = register_all-Partitioned rs new_registry (tt, λ v a h. cc) e in
    All-map (λ a h. unanswered r a.vendor_id h (end.1 a.vendor_id)) r.poll end.0
