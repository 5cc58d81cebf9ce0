-- ===== src/Base/Strings.antt =====
-- Python's `str` as the list of its code points, with the methods that the source calls.
use Prim.Native.Nat.{ℕ}
use Prim.Native.Char.{code}
use Prim.Native.String.{String}
use mathlib.Core.Path.{◌≡◌, refl, ap, ◌∙◌}
use mathlib.Core.Logic.{◌↔◌}
use mathlib.Core.Bool.{Bool, true, false, ◌&&◌, ◌||◌}
use mathlib.Core.List.{List, [], ◌∷◌, ◌++◌, reverse}
use native.Mathlib.Omega.{arith}
use python_server_sdk.Base.Tests.{Eq, eqb, leb, contains, if◌then◌else◌}

abbrev pub Text : Type 0
Text = List ℕ

abbrev pub codes : String → Text
codes String.[] = []
codes (String.◌∷◌ c s) = code c ∷ codes s

unfoldable pub text_beq : Text → Text → Bool
text_beq [] [] = true
text_beq (a ∷ s) (b ∷ t) = eqb a b && text_beq s t
text_beq _ _ = false

text_beq_eq : (s t : Text) → text_beq s t ≡ true → s ≡ t
unfolding text_beq
text_beq_eq [] [] h = refl
text_beq_eq (a ∷ s) (b ∷ t) h = ground (arith, text_beq_eq s t)
text_beq_eq [] (b ∷ t) h = ground arith
text_beq_eq (a ∷ s) [] h = ground arith

text_beq_self : (s : Text) → text_beq s s ≡ true
unfolding text_beq
text_beq_self [] = refl
text_beq_self (a ∷ s) = ground (arith, text_beq_self s)

pub text_beq_iff : (s t : Text) → (text_beq s t ≡ true) ↔ (s ≡ t)
text_beq_iff s t = (text_beq_eq s t, λ h. ground (arith, h, text_beq_self s))

instance abbrev pub text_eq : Eq Text
text_eq = record { same = text_beq; same_iff = text_beq_iff }

-- `s.startswith(prefix)`
unfoldable pub starts_with : Text → Text → Bool
starts_with s [] = true
starts_with [] (b ∷ t) = false
starts_with (a ∷ s) (b ∷ t) = eqb a b && starts_with s t

-- `s.endswith(suffix)`
unfoldable pub ends_with : Text → Text → Bool
unfolding starts_with
ends_with s t = starts_with (reverse s) (reverse t)

-- `separator.join(parts)`
unfoldable pub join : Text → List Text → Text
join sep [] = []
join sep (s ∷ []) = s
join sep (s ∷ t ∷ rest) = s ++ (sep ++ join sep (t ∷ rest))

-- `<=` on texts, by code points
unfoldable pub text_le : Text → Text → Bool
text_le [] t = true
text_le (a ∷ s) [] = false
text_le (a ∷ s) (b ∷ t) = let rest = text_le s t in if eqb a b then rest else leb a b

insert_text : Text → List Text → List Text
unfolding text_le
insert_text s [] = s ∷ []
insert_text s (t ∷ rest) = if text_le s t then s ∷ t ∷ rest else t ∷ insert_text s rest

-- `sorted(texts)`
unfoldable pub sort_texts : List Text → List Text
unfolding insert_text
sort_texts [] = []
sort_texts (s ∷ rest) = insert_text s (sort_texts rest)

contains-insert_text :
    (k s : Text) (l : List Text) → contains (insert_text s l) k ≡ (text_beq k s || contains l k)
unfolding insert_text
contains-insert_text k s [] = refl
contains-insert_text k s (t ∷ l) = ground (arith, contains-insert_text k s l)

pub contains-sort_texts : (k : Text) (l : List Text) → contains (sort_texts l) k ≡ contains l k
unfolding sort_texts
contains-sort_texts k [] = refl
contains-sort_texts k (s ∷ l) =
    contains-insert_text k s (sort_texts l) ∙ ap (λ b. text_beq k s || b) (contains-sort_texts k l)
