-- ===== src/Audio/Active.antt =====
-- The set of playing channels under the messages.
use video_player_core.Base.{
  ℕ, ◌≡◌, refl, ap, sym, ◌∙◌, inl, inr, Bool, true, false, List, [], ◌∷◌, if◌then◌else◌, ◌==◌,
  arith, Bool-cases, subst,
}
use video_player_core.Audio.Callback.{
  ChannelMessage, add_channel, remove_channel, is_in, insert, erase, take_messages,
}

-- A set as a list: nothing stands in it twice.
abbrev pub Distinct : List ℕ → Type 0
Distinct [] = Unit {0}
Distinct (c ∷ cs) = (is_in c cs ≡ false) × Distinct cs

is_in-erase_new : (c b : ℕ) (cs : List ℕ) → is_in b cs ≡ false → is_in b (erase c cs) ≡ false
unfolding erase
is_in-erase_new c b [] out = refl
is_in-erase_new c b (x ∷ xs) out = ground (arith, is_in-erase_new c b xs)

Distinct-erase : (c : ℕ) (cs : List ℕ) → Distinct cs → Distinct (erase c cs)
unfolding erase
Distinct-erase c [] d = tt
Distinct-erase c (x ∷ xs) (new, d) =
    if_case (x == c) xs (x ∷ erase c xs) d (is_in-erase_new c x xs new, Distinct-erase c xs d)
  where
    if_case :
        (t : Bool) (ys zs : List ℕ) → Distinct ys → Distinct zs → Distinct (if t then ys else zs)
    if_case true ys zs a b = a
    if_case false ys zs a b = b

Distinct-insert : (c : ℕ) (cs : List ℕ) → Distinct cs → Distinct (insert c cs)
Distinct-insert c cs d = elim (Bool-cases (is_in c cs)) [
  | inl there ↦ subst Distinct (ground arith) d
  | inr new ↦ subst Distinct (sym (same new)) (new, d)
]
  where
    same : is_in c cs ≡ false → insert c cs ≡ c ∷ cs
    same new = ground arith

pub Distinct-take_messages :
    (ms : List ChannelMessage) (cs : List ℕ) → Distinct cs → Distinct (take_messages ms cs)
unfolding take_messages
Distinct-take_messages [] cs d = d
Distinct-take_messages (add_channel c ∷ ms) cs d =
    Distinct-take_messages ms (insert c cs) (Distinct-insert c cs d)
Distinct-take_messages (remove_channel c ∷ ms) cs d =
    Distinct-take_messages ms (erase c cs) (Distinct-erase c cs d)

is_in-erase_other : (c b : ℕ) (cs : List ℕ) → (c == b) ≡ false → is_in b (erase c cs) ≡ is_in b cs
unfolding erase
is_in-erase_other c b [] other = refl
is_in-erase_other c b (x ∷ xs) other = ground (arith, is_in-erase_other c b xs other)

is_in-erase_self : (c : ℕ) (cs : List ℕ) → Distinct cs → is_in c (erase c cs) ≡ false
unfolding erase
is_in-erase_self c [] d = refl
is_in-erase_self c (x ∷ xs) (new, d) = elim (Bool-cases (x == c)) [
  | inl here ↦ let e : x ≡ c = ground arith in ground (arith, subst (λ k. is_in k xs ≡ false) e new)
  | inr other ↦ ground (arith, is_in-erase_self c xs d)
]

is_in-insert :
    (i c : ℕ) (cs : List ℕ) → is_in i (insert c cs) ≡ (if c == i then true else is_in i cs)
is_in-insert i c cs = elim (Bool-cases (c == i)) [
  | inl here ↦ let e : c ≡ i = ground arith in ground (arith, ap (λ k. is_in k cs) e)
  | inr other ↦ ground arith
]

is_in-erase :
    (i c : ℕ) (cs : List ℕ)
    → Distinct cs
    → is_in i (erase c cs) ≡ (if c == i then false else is_in i cs)
is_in-erase i c cs d = elim (Bool-cases (c == i)) [
  | inl here ↦
      let e : c ≡ i = ground arith in
      ground (arith, ap (λ k. is_in k (erase c cs)) e, is_in-erase_self c cs d)
  | inr other ↦ ground (arith, is_in-erase_other c i cs other)
]

-- Whether a channel is to play: its last message says it, or it did.
abbrev pub wanted : ℕ → List ChannelMessage → Bool → Bool
wanted i [] was = was
wanted i (add_channel c ∷ ms) was = wanted i ms (if c == i then true else was)
wanted i (remove_channel c ∷ ms) was = wanted i ms (if c == i then false else was)

pub is_in-take_messages :
    (i : ℕ) (ms : List ChannelMessage) (cs : List ℕ)
    → Distinct cs
    → is_in i (take_messages ms cs) ≡ wanted i ms (is_in i cs)
unfolding take_messages
is_in-take_messages i [] cs d = refl
is_in-take_messages i (add_channel c ∷ ms) cs d =
    let inserted : is_in i (insert c cs) ≡ (if c == i then true else is_in i cs) =
      is_in-insert i c cs in
    is_in-take_messages i ms (insert c cs) (Distinct-insert c cs d) ∙ ap (wanted i ms) inserted
is_in-take_messages i (remove_channel c ∷ ms) cs d =
    let erased : is_in i (erase c cs) ≡ (if c == i then false else is_in i cs) =
      is_in-erase i c cs d in
    is_in-take_messages i ms (erase c cs) (Distinct-erase c cs d) ∙ ap (wanted i ms) erased
