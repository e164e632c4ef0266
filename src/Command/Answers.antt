-- ===== src/Command/Answers.antt =====
-- What the callers of the commands get.
use nadrvlinux.Prelude.{
  ℕ, ◌≤◌, ◌<◌, u16, Bool, true, false, Option, none, some, List, ◌++◌, take, drop, ltb, ltb→lt,
  ◌==◌, if◌then◌else◌, ◌≡◌, refl, ◌⊎◌, inl, inr, Bool-cases, arith,
}
use nadrvlinux.Codes.{no_error, function_failed, invalid_parameter}
use nadrvlinux.System.{System}
use nadrvlinux.Handshake.{license_check_bit, mdio_bit, default_timeout}
use nadrvlinux.Command.{
  command, access_phy_reg, check_device_ident, fill_mdio, fill_ident, phy_direction_read,
  ident_info_block_size,
}
use nadrvlinux.Command.Laws.{NotSent, Sent, CommandResult, command-CommandResult}

module _ (direction phy_num phy_reg value : ℕ) (s : System) where
  -- What access to a PHY register may return.
  abbrev pub PhyAnswer : Option ((ℕ × ℕ) × System) → Type 0
  PhyAnswer none = Unit {0}
  PhyAnswer (some ((code, value'), s')) =
      ((s.device.port_cnt ≤ phy_num) × (code ≡ invalid_parameter) × (value' ≡ value) × (s' ≡ s))
      ⊎ ((phy_num < s.device.port_cnt)
          × (code ≡ no_error)
          × (value' ≡ (if direction == phy_direction_read then u16 s'.device.mdio.value else value))
          × Sent mdio_bit (fill_mdio direction phy_num phy_reg value) s s' true)
      ⊎ ((phy_num < s.device.port_cnt)
          × (code ≡ function_failed)
          × (value' ≡ value)
          × (NotSent mdio_bit s s'
              ⊎ Sent mdio_bit (fill_mdio direction phy_num phy_reg value) s s' false))

-- Access to a PHY register is refused for a port that the device does not have. Else it reports success
-- exactly when its command, with the block filled, was sent and answered, and then a read gives the
-- value that stands in the block; on failure the caller's value is kept.
pub access_phy_reg-PhyAnswer :
    (direction phy_num phy_reg value timeout : ℕ) (s : System)
    → PhyAnswer direction phy_num phy_reg value s
        (access_phy_reg direction phy_num phy_reg value timeout s)
unfolding access_phy_reg
access_phy_reg-PhyAnswer direction phy_num phy_reg value timeout s =
    elim (Bool-cases (ltb phy_num s.device.port_cnt)) [
      | inr bad ↦ rw bad (inl (ground arith, refl, refl, refl))
      | inl there ↦ rw there (
          concluded there (command mdio_bit timeout (fill_mdio direction phy_num phy_reg value) s)
            (command-CommandResult mdio_bit timeout (fill_mdio direction phy_num phy_reg value) s))
    ]
  where
    concluded :
        ltb phy_num s.device.port_cnt ≡ true
        → (o : Option (Bool × System))
        → CommandResult mdio_bit (fill_mdio direction phy_num phy_reg value) s o
        → PhyAnswer direction phy_num phy_reg value s (elim o [
          | none ↦ none
          | some (ok, s') ↦ some (
            if ok
                then (
                  no_error,
                  if direction == phy_direction_read then u16 s'.device.mdio.value else value,
                )
                else (function_failed, value),
            s',
          )
        ])
    concluded there none h = tt
    concluded there (some (true, s')) h =
        inr (inl (ltb→lt phy_num s.device.port_cnt there, refl, refl, h))
    concluded there (some (false, s')) h =
        inr (inr (ltb→lt phy_num s.device.port_cnt there, refl, refl, h))

module _ (size : ℕ) (info : List ℕ) (s : System) where
  -- What the check of an identification may return to a caller with a block.
  abbrev pub IdentAnswer : Option ((ℕ × Option (List ℕ)) × System) → Type 0
  IdentAnswer none = Unit {0}
  IdentAnswer (some ((code, info'), s')) =
      ((ident_info_block_size < size) × (code ≡ function_failed) × (info' ≡ some info) × (s' ≡ s))
      ⊎ ((size ≤ ident_info_block_size)
          × (code ≡ no_error)
          × (info' ≡ some (take size s'.device.ident_block ++ drop size info))
          × Sent license_check_bit (fill_ident info size) s s' true)
      ⊎ ((size ≤ ident_info_block_size)
          × (code ≡ function_failed)
          × (info' ≡ some info)
          × (NotSent license_check_bit s s'
              ⊎ Sent license_check_bit (fill_ident info size) s s' false))

-- The check of an identification refuses a block that is too large. Else it reports success exactly
-- when the block was written to the device and the command answered, and then the caller has what the
-- device holds; on failure the caller's block is kept.
pub check_device_ident-IdentAnswer :
    (size : ℕ) (info : List ℕ) (s : System)
    → IdentAnswer size info s (check_device_ident size (some info) s)
unfolding check_device_ident
check_device_ident-IdentAnswer size info s = elim (Bool-cases (ltb ident_info_block_size size)) [
  | inl large ↦ rw large (inl (ltb→lt ident_info_block_size size large, refl, refl, refl))
  | inr fits ↦ rw fits (
      concluded (ground arith) (command license_check_bit default_timeout (fill_ident info size) s)
        (command-CommandResult license_check_bit default_timeout (fill_ident info size) s))
]
  where
    concluded :
        size ≤ ident_info_block_size
        → (o : Option (Bool × System)) → CommandResult license_check_bit (fill_ident info size) s o
        → IdentAnswer size info s (elim o [
          | none ↦ none
          | some (ok, s') ↦ some (
            if ok
                then (no_error, some (take size s'.device.ident_block ++ drop size info))
                else (function_failed, some info),
            s',
          )
        ])
    concluded fits none h = tt
    concluded fits (some (true, s')) h = inr (inl (fits, refl, refl, h))
    concluded fits (some (false, s')) h = inr (inr (fits, refl, refl, h))
