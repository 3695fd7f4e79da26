-- ===== src/I2np/Frame/Optional.antt =====
-- Optional and repeated fields: the rules that the payloads share.
use ire.Prelude.{◌≡◌, sym, subst, Bool, true, Option, none, some, List, [], ◌∷◌, Bytes, All}
use ire.I2np.Frame.Generate.{is_some, unwrapped}
use ire.I2np.Frame.Layout.{optional, Within}
use ire.Wire.{Parser, Gen}
use ire.Wire.Nom.{Nom}
use ire.Wire.Cookie.{Cookie}
use ire.Wire.Reads.{Reads, cond_true-Reads, cond_false-Reads}
use ire.Wire.Writes.{Writes, cond_true-Writes, cond_false-Writes}

pub All-map :
    {A : Type 0} {P Q : A → Type 0} (f : (x : A) → P x → Q x) (xs : List A) → All P xs → All Q xs
All-map f [] h = tt
All-map f (x ∷ xs) h = (f x h.0, All-map f xs h.1)

pub Within-map :
    {A : Type 0} {P Q : A → Type 0} (f : (x : A) → P x → Q x) (o : Option A)
    → Within P o
    → Within Q o
Within-map f none h = tt
Within-map f (some x) h = f x h

-- A field that is there exactly when the flag `b` says so.
module _ (nom : Nom) {A : Type 0} where
  pub announced-Reads :
      {p : Parser nom.Err Bytes A} (f : A → Bytes) (o : Option A) (b : Bool)
      → is_some o ≡ b
      → Within (λ x. Reads p (f x) x) o
      → Reads (nom.cond b p) (optional f o) o
  announced-Reads {p} f none b e h =
      subst (λ c. Reads (nom.cond c p) [] none) e (cond_false-Reads nom p)
  announced-Reads {p} f (some x) b e h =
      subst (λ c. Reads (nom.cond c p) (f x) (some x)) e (cond_true-Reads nom h)

  pub said-Reads :
      {p : Parser nom.Err Bytes A} {bs : Bytes} {a : A} (b : Bool)
      → b ≡ true
      → Reads p bs a
      → Reads (nom.cond b p) bs (some a)
  said-Reads {p} {bs} {a} b e r =
      subst (λ c. Reads (nom.cond c p) bs (some a)) (sym e) (cond_true-Reads nom r)

module _ (cf : Cookie) {A : Type 0} where
  unwrapped-Writes :
      (g : A → Gen cf.GenError) (x : A) {bs : Bytes}
      → Writes (g x) bs
      → Writes (unwrapped g (some x)) bs
  unfolding unwrapped
  unwrapped-Writes g x w = record { at = w.at }

  pub announced-Writes :
      (g : A → Gen cf.GenError) (f : A → Bytes) (o : Option A) (b : Bool)
      → is_some o ≡ b
      → Within (λ x. Writes (g x) (f x)) o
      → Writes (cf.cond b (unwrapped g o)) (optional f o)
  announced-Writes g f none b e w =
      subst (λ c. Writes (cf.cond c (unwrapped g none)) []) e (cond_false-Writes cf _)
  announced-Writes g f (some x) b e w =
      subst (λ c. Writes (cf.cond c (unwrapped g (some x))) (f x)) e
        (cond_true-Writes cf (unwrapped-Writes g x w))

-- What holds of every value holds of the one there is.
pub Within-all : {A : Type 0} {P : A → Type 0} (f : (x : A) → P x) (o : Option A) → Within P o
Within-all f none = tt
Within-all f (some x) = f x
