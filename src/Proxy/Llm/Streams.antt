-- ===== src/Proxy/Llm/Streams.antt =====
-- Lists of what the events of a stream hold, for clawpot-server/src/proxy/llm.rs.
use clawpot.Common.{◌≡◌, refl, sym, ap, ◌∙◌, List, [], ◌∷◌, ◌++◌, Option, none, some, Text}
use mathlib.Core.List.{append_assoc}

-- The last item of a list, after a first one.
abbrev pub last_or {ℓ} : {A : Type ℓ} → A → List A → A
last_or a [] = a
last_or a (x ∷ xs) = last_or x xs

abbrev pub concat : List Text → Text
concat [] = []
concat (t ∷ ts) = t ++ concat ts

-- The items that are there.
abbrev pub present {ℓ} : {A : Type ℓ} → List (Option A) → List A
present [] = []
present (none ∷ os) = present os
present (some a ∷ os) = a ∷ present os

pub concat-append : (ts us : List Text) → concat (ts ++ us) ≡ concat ts ++ concat us
concat-append [] us = refl
concat-append (t ∷ ts) us =
    ap (λ r. t ++ r) (concat-append ts us) ∙ sym (append_assoc t (concat ts) (concat us))

pub last_or-append {ℓ} :
    {A : Type ℓ} (a : A) (xs ys : List A) → last_or a (xs ++ ys) ≡ last_or (last_or a xs) ys
last_or-append a [] ys = refl
last_or-append a (x ∷ xs) ys = last_or-append x xs ys
