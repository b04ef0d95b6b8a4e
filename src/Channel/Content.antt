-- ===== src/Channel/Content.antt =====
-- internal/channel: the content of a notification, whatever the order in which Go visits its maps.
use mathlib.Core.Quot
use mathlib.Core.Quot.{Quot}
use mathlib.Core.HLevel.{Π_prop, Σ_prop_path}
use alertmanager_webhook_rel.Base.{Text, Text_set, fun_ext, refl, ◌≡◌}
use alertmanager_webhook_rel.Notify.{Notification}
use alertmanager_webhook_rel.Channel.Reorder.{SameContent}

abbrev pub Content : Type 0
Content = Quot SameContent

-- The text is a function of the content alone.
abbrev pub IsOfContent : (Notification → Text) → Type 0
IsOfContent f =
    IsContr ((of_content : Content → Text) × ((n : Notification) → of_content (Quot.mk n) ≡ f n))

pub lift-IsOfContent :
    (f : Notification → Text) → ((n m : Notification) → SameContent n m → f n ≡ f m) → IsOfContent f
lift-IsOfContent f same = (
  (Quot.lift Text_set f same, λ n. refl),
  λ (g, h).
      Σ_prop_path (λ u. Π_prop (λ n. Text_set _ _))
        (fun_ext (Quot.ind (λ q. Text_set _ _) (λ n. h n))),
)
