-- ===== src/Connector/Channels.antt =====
-- connector.go: which channels the connector has registered and removed, by its calls.
use muduo_go.Prelude.{ℕ, ◌+◌, ◌≡◌, refl, List, [], ◌∷◌, ◌++◌, arith, count, if◌then◌else◌, ◌==◌}
use muduo_go.Connector.{ChannelCall, enable_writing, disable_all, remove_channel}

abbrev pub enabled_of : List ChannelCall → List ℕ
enabled_of [] = []
enabled_of (enable_writing fd ∷ cs) = fd ∷ enabled_of cs
enabled_of (disable_all fd ∷ cs) = enabled_of cs
enabled_of (remove_channel fd ∷ cs) = enabled_of cs

abbrev pub removed_of : List ChannelCall → List ℕ
removed_of [] = []
removed_of (enable_writing fd ∷ cs) = removed_of cs
removed_of (disable_all fd ∷ cs) = removed_of cs
removed_of (remove_channel fd ∷ cs) = fd ∷ removed_of cs

module _ (j fd : ℕ) where
  pub count-enabled :
      (cs : List ChannelCall)
      → count j (enabled_of (cs ++ enable_writing fd ∷ []))
        ≡ count j (enabled_of cs) + (if fd == j then 1 else 0)
  count-enabled [] = ground arith
  count-enabled (enable_writing x ∷ cs) = ground (arith, count-enabled cs)
  count-enabled (disable_all x ∷ cs) = count-enabled cs
  count-enabled (remove_channel x ∷ cs) = count-enabled cs

  pub count-enabled_others :
      (cs : List ChannelCall)
      → count j (removed_of (cs ++ enable_writing fd ∷ [])) ≡ count j (removed_of cs)
  count-enabled_others [] = refl
  count-enabled_others (enable_writing x ∷ cs) = count-enabled_others cs
  count-enabled_others (disable_all x ∷ cs) = count-enabled_others cs
  count-enabled_others (remove_channel x ∷ cs) = ground (arith, count-enabled_others cs)

  pub count-removed :
      (cs : List ChannelCall)
      → count j (removed_of (cs ++ disable_all fd ∷ remove_channel fd ∷ []))
        ≡ count j (removed_of cs) + (if fd == j then 1 else 0)
  count-removed [] = ground arith
  count-removed (enable_writing x ∷ cs) = count-removed cs
  count-removed (disable_all x ∷ cs) = count-removed cs
  count-removed (remove_channel x ∷ cs) = ground (arith, count-removed cs)

  pub count-removed_others :
      (cs : List ChannelCall)
      → count j (enabled_of (cs ++ disable_all fd ∷ remove_channel fd ∷ []))
        ≡ count j (enabled_of cs)
  count-removed_others [] = refl
  count-removed_others (enable_writing x ∷ cs) = ground (arith, count-removed_others cs)
  count-removed_others (disable_all x ∷ cs) = count-removed_others cs
  count-removed_others (remove_channel x ∷ cs) = count-removed_others cs
