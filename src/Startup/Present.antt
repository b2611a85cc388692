-- ===== src/Startup/Present.antt =====
-- After the start-up every mapped sector has a stream, and the provider has been led there by new
-- streams alone (src/psych.cc, Init).
use psych.Prelude.{
  ℕ, ◌+◌, ◌≤◌, ◌<◌, Option, none, some, List, [], ◌∷◌, ◌≡◌, refl, arith, length, length-append, All,
  Bool-cases, inl, inr,
}
use psych.Prelude.Bytes.{Bytes, equal, less}
use psych.Config.{Resource}
use psych.Store.{Provider}
use psych.Provider.Streams.{create_stream}
use psych.Refresh.{NameMap}
use psych.Refresh.Safe.{Present}
use psych.Setup.Feed.{emplace}
use psych.Startup.Streams.{
  StreamMap, find_stream, Board, stream_for, create_items, create_resources,
}

module _ {ℓ} {V : Type ℓ} (P : Bytes × V → Type ℓ) where
  All-emplace :
      (k : Bytes) (v : V) (l : List (Bytes × V)) → P (k, v) → All P l → All P (emplace k v l)
  unfolding emplace
  All-emplace k v [] h all = (h, all)
  All-emplace k v ((j, w) ∷ l) h (first, rest) = elim (Bool-cases (equal k j)) [
    | inl e ↦ rw e (first, rest)
    | inr e ↦ elim (Bool-cases (less k j)) [
      | inl lower ↦ rw (e, lower) (h, (first, rest))
      | inr higher ↦ rw (e, higher) (first, All-emplace k v l h rest)
    ]
  ]

All-weaken {ℓ κ} :
    {A : Type ℓ} (P Q : A → Type κ) → ((a : A) → P a → Q a) → (l : List A) → All P l → All Q l
All-weaken P Q f [] all = all
All-weaken P Q f (a ∷ l) (first, rest) = (f a first, All-weaken P Q f l rest)

-- The streams of the map are below `n`, and so are those of the sectors.
abbrev Below : ℕ → StreamMap → Type 0
Below n sv = All (λ e. e.1 < n) sv

abbrev NamesBelow : ℕ → NameMap → Type 0
NamesBelow n names = All (λ e. e.1.1 < n) names

length-create_stream :
    (p : Provider) (name : Bytes) → length (create_stream p name).streams ≡ length p.streams + 1
unfolding create_stream
length-create_stream p name = length-append {0} p.streams _

find_stream-Below :
    (n : ℕ) (ric : Bytes) (sv : StreamMap) (q : ℕ)
    → Below n sv
    → find_stream ric sv ≡ some q
    → q < n
unfolding find_stream
find_stream-Below n ric [] q b h = cc
find_stream-Below n ric ((k, j) ∷ sv) q (first, rest) h =
    ground (arith, find_stream-Below n ric sv q rest)

-- What a call of `stream_for` makes.
record Made (n : ℕ) (made : ℕ × Provider × StreamMap) : Type 0 where
  inside : made.0 < length made.1.streams
  grows : n ≤ length made.1.streams
  below : Below (length made.1.streams) made.2

stream_for-Made :
    (ric : Bytes) (o : Option ℕ) (p : Provider) (sv : StreamMap)
    → Below (length p.streams) sv
    → find_stream ric sv ≡ o
    → Made (length p.streams) (stream_for ric o p sv)
unfolding stream_for
stream_for-Made ric none p sv b h =
    let grown = length-create_stream p ric in
    record {
      inside = omega (arith, grown);
      grows = omega (arith, grown);
      below =
          All-emplace (λ e. e.1 < length (create_stream p ric).streams) ric (length p.streams) sv
            (omega (arith, grown))
            (All-weaken (λ (e : Bytes × ℕ). e.1 < length p.streams)
              (λ e. e.1 < length (create_stream p ric).streams) (λ e lt. omega (arith, grown, lt))
              sv b);
    }
stream_for-Made ric (some q) p sv b h = record {
  inside = find_stream-Below (length p.streams) ric sv q b h;
  grows = omega arith;
  below = b;
}

-- What the loop over the items makes.
record Filled (n : ℕ) (made : Provider × StreamMap × NameMap) : Type 0 where
  grows : n ≤ length made.0.streams
  below : Below (length made.0.streams) made.1
  names : NamesBelow (length made.0.streams) made.2

create_items-Filled :
    (items : List (Bytes × (Bytes × Bytes))) (p : Provider) (sv : StreamMap) (names : NameMap)
    → Below (length p.streams) sv
    → NamesBelow (length p.streams) names
    → Filled (length p.streams) (create_items items p sv names)
unfolding create_items
create_items-Filled [] p sv names b h = record { grows = omega arith; below = b; names = h }
create_items-Filled ((sector, (ric, topic)) ∷ items) p sv names b h =
    let made = stream_for ric (find_stream ric sv) p sv in
    let m = stream_for-Made ric (find_stream ric sv) p sv b refl in
    let grown = m.grows in
    let later =
      create_items-Filled items made.1 made.2 (emplace sector (topic, made.0) names) m.below (
        All-emplace (λ e. e.1.1 < length made.1.streams) sector (topic, made.0) names m.inside
          (All-weaken (λ (e : Bytes × (Bytes × ℕ)). e.1.1 < length p.streams)
            (λ e. e.1.1 < length made.1.streams) (λ e lt. omega (arith, grown, lt)) names h)) in
    record { grows = omega (arith, grown, later.grows); below = later.below; names = later.names }

-- Every stream that the start-up has handed out exists.
pub record IsBoard (b : Board) : Type 0 where
  pub below : All (λ e. e.1 < length b.provider.streams) b.stream_vector
  pub present : All (λ e. Present b.provider.streams e.1) b.query_vector

-- If every stream handed out so far exists, then after the streams of any resources have been
-- created too, every sector that is mapped to a stream is mapped to one that exists.
pub create_resources-IsBoard :
    (base_url : Bytes) (rs : List Resource) (b : Board)
    → IsBoard b
    → IsBoard (create_resources base_url rs b)
unfolding create_resources
create_resources-IsBoard base_url [] b ok = ok
create_resources-IsBoard base_url (r ∷ rs) b ok =
    let made = create_items r.items b.provider b.stream_vector [] in
    let f = create_items-Filled r.items b.provider b.stream_vector [] ok.below tt in
    let grown = f.grows in
    create_resources-IsBoard base_url rs _ (record {
      below = f.below;
      present =
          All-emplace (λ e. Present made.0.streams e.1) r.path made.2 b.query_vector f.names
            (All-weaken (λ (e : Bytes × NameMap). Present b.provider.streams e.1)
              (λ e. Present made.0.streams e.1)
              (λ e all.
                All-weaken (λ (x : Bytes × (Bytes × ℕ)). x.1.1 < length b.provider.streams)
                  (λ x. x.1.1 < length made.0.streams) (λ x lt. omega (arith, grown, lt)) e.1 all)
              b.query_vector ok.present);
    })
