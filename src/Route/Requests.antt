-- ===== src/Route/Requests.antt =====
-- route.c: `rtnl_generic_req` and `rtnl_get_ifaces`, from the answer of the kernel to the interfaces that
-- interface.c keeps.
use opencli.Base.{ℕ, ◌≡◌, Bool, ◌&&◌, Option, none, some, List, [], ◌∷◌, if◌then◌else◌, Bytes}
use opencli.Interface.{Stats, Iface}
use opencli.Route.Message.{Ret, minus_one, value, nl_response_hld}
use opencli.Route.Link.{skipped, refused, calls, rtnl_iface_get}

-- `rtnl_generic_req`, where `connected` and `sent` say that the socket is set up and the request sent.
unfoldable pub rtnl_generic_req :
    {S : Type 0}
    → (Bytes → ℕ → S → Ret × S)
    → Bool
    → Bool
    → Bytes
    → Option Bytes
    → S
    → Option (Ret × S)
rtnl_generic_req handler connected sent stack received s =
    if connected && sent then nl_response_hld handler stack received s else some (minus_one, s)

-- The table on the stack is `tb`. The callbacks for interfaces return nothing, so that what
-- `rtnl_iface_get` takes for their return is any `left_over`.
module _ (stats_size : ℕ) (read_stats : Bytes → Stats) (ifla_max : ℕ) (tb : List (Option ℕ))
    (left_over : Ret) where
  -- `rtnl_iface_get` as a handler. No state is left behind undefined behaviour.
  unfoldable pub on_iface :
      (Iface → List Iface → List Iface)
      → Bytes
      → ℕ
      → Option (List Iface)
      → Ret × Option (List Iface)
  on_iface callback buff h none = (minus_one, none)
  on_iface callback buff h (some l) =
      elim (rtnl_iface_get stats_size read_stats ifla_max tb buff h) [
        | none ↦ (minus_one, none)
        | some skipped ↦ (value 0, some l)
        | some refused ↦ (minus_one, some l)
        | some (calls k) ↦ (left_over, some (callback k l))
      ]

  unfoldable pub rtnl_get_ifaces :
      (Iface → List Iface → List Iface)
      → Bool
      → Bool
      → Bytes
      → Option Bytes
      → List Iface
      → Option (Ret × Option (List Iface))
  unfolding rtnl_generic_req on_iface
  rtnl_get_ifaces callback connected sent stack received l =
      rtnl_generic_req (on_iface callback) connected sent stack received (some l)

  -- The messages at `hs` are about the interfaces `ks`.
  pub data Tells (buff : Bytes) : List ℕ → List Iface → Type 0 where
    tells_none : Tells buff [] []
    tells :
        (h : ℕ) (k : Iface) (hs : List ℕ) (ks : List Iface)
        → rtnl_iface_get stats_size read_stats ifla_max tb buff h ≡ some (calls k)
        → Tells buff hs ks
        → Tells buff (h ∷ hs) (k ∷ ks)
