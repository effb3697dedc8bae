-- ===== src/Units/Product.antt =====
-- `mbus_data_product_name` of mbus/mbus-protocol.c: its chain of manufacturers, in parts.
use Prim.Native.String.{String}
use libmbus.Base.{ℕ, Bool, ◌||◌, List, [], ◌∷◌, ◌+◌, if◌then◌else◌, leb, ◌==◌, byte_at, ◌<<<◌}
use libmbus.Codec.Manufacturer.{manufacturer_id}
use libmbus.Data.Variable.{VariableHeader}
use libmbus.Units.Text.{text, switch}

-- `manufacturer == mbus_manufacturer_id(code)`
unfoldable pub is_from : ℕ → String → Bool
is_from manufacturer code = manufacturer == manufacturer_id (text code)

unfoldable pub products_abb_to_els : ℕ → VariableHeader → List ℕ → List ℕ
products_abb_to_els manufacturer h otherwise =
    if is_from manufacturer "ABB"
    then (switch h.version
        ((0x02 ∷ [], text "ABB Delta-Meter") ∷ (0x20 ∷ [], text "ABB B21 113-100") ∷ []) [])
    else (if is_from manufacturer "ACW"
        then (switch h.version
            ((0x09 ∷ [], text "Itron CF Echo 2")
              ∷ (0x0A ∷ [], text "Itron CF 51")
              ∷ (0x0B ∷ [], text "Itron CF 55")
              ∷ (0x0E ∷ [], text "Itron BM +m")
              ∷ (0x0F ∷ [], text "Itron CF 800")
              ∷ (0x14 ∷ [], text "Itron CYBLE M-Bus 1.4")
              ∷ [])
            [])
        else (if is_from manufacturer "AMT"
            then (if leb 0xC0 h.version
                then text "Aquametro CALEC ST"
                else (if leb 0x80 h.version
                    then text "Aquametro CALEC MB"
                    else (if leb 0x40 h.version
                        then text "Aquametro SAPHIR"
                        else text "Aquametro AMTRON")))
            else (if is_from manufacturer "BEC"
                then ((if h.medium == 0x02
                    then switch h.version
                        ((0x00 ∷ [], text "Berg DCMi") ∷ (0x07 ∷ [], text "Berg BLMi") ∷ []) []
                    else (if h.medium == 0x0F
                        then switch h.version ((0x71 ∷ [], text "Berg BMB-10S0") ∷ []) []
                        else [])))
                else (if is_from manufacturer "EFE"
                    then (switch h.version
                        ((
                          0x00 ∷ [],
                          (if h.medium == 0x06
                              then text "Engelmann WaterStar"
                              else text "Engelmann / Elster SensoStar 2"),
                        )
                          ∷ (0x01 ∷ [], text "Engelmann SensoStar 2C")
                          ∷ [])
                        [])
                    else (if is_from manufacturer "ELS"
                        then (switch h.version
                            ((0x02 ∷ [], text "Elster TMP-A")
                              ∷ (0x0A ∷ [], text "Elster Falcon")
                              ∷ (0x2F ∷ [], text "Elster F96 Plus")
                              ∷ [])
                            [])
                        else otherwise)))))

unfoldable pub products_elv_to_slb : ℕ → VariableHeader → List ℕ → List ℕ
products_elv_to_slb manufacturer h otherwise =
    if is_from manufacturer "ELV"
    then (switch h.version
        ((
          0x14 ∷ 0x15 ∷ 0x16 ∷ 0x17 ∷ 0x18 ∷ 0x19 ∷ 0x1A ∷ 0x1B ∷ 0x1C ∷ 0x1D ∷ [],
          text "Elvaco CMa10",
        )
          ∷ (
            0x32 ∷ 0x33 ∷ 0x34 ∷ 0x35 ∷ 0x36 ∷ 0x37 ∷ 0x38 ∷ 0x39 ∷ 0x3A ∷ 0x3B ∷ [],
            text "Elvaco CMa11",
          )
          ∷ [])
        [])
    else (if is_from manufacturer "EMH"
        then (switch h.version ((0x00 ∷ [], text "EMH DIZ") ∷ []) [])
        else (if is_from manufacturer "EMU"
            then ((if h.medium == 0x02
                then switch h.version ((0x10 ∷ [], text "EMU Professional 3/75 M-Bus") ∷ []) []
                else []))
            else (if is_from manufacturer "GAV"
                then ((if h.medium == 0x02
                    then switch h.version
                        ((0x2D ∷ 0x2E ∷ 0x2F ∷ 0x30 ∷ [], text "Carlo Gavazzi EM24")
                          ∷ (0x39 ∷ 0x3A ∷ [], text "Carlo Gavazzi EM21")
                          ∷ (0x40 ∷ [], text "Carlo Gavazzi EM33")
                          ∷ [])
                        []
                    else []))
                else (if is_from manufacturer "GMC"
                    then (switch h.version ((0xE6 ∷ [], text "GMC-I A230 EMMOD 206") ∷ []) [])
                    else (if is_from manufacturer "KAM"
                        then (switch h.version
                            ((0x01 ∷ [], text "Kamstrup 382 (6850-005)")
                              ∷ (0x08 ∷ [], text "Kamstrup Multical 601")
                              ∷ [])
                            [])
                        else (if is_from manufacturer "SLB"
                            then (switch h.version
                                ((0x02 ∷ [], text "Allmess Megacontrol CF-50")
                                  ∷ (0x06 ∷ [], text "CF Compact / Integral MK MaXX")
                                  ∷ [])
                                [])
                            else otherwise))))))

unfoldable pub products_hyd_to_sbc : ℕ → VariableHeader → List ℕ → List ℕ
products_hyd_to_sbc manufacturer h otherwise =
    if is_from manufacturer "HYD"
    then (switch h.version
        ((0x28 ∷ [], text "ABB F95 Typ US770") ∷ (0x2F ∷ [], text "Hydrometer Sharky 775") ∷ []) [])
    else (if is_from manufacturer "JAN"
        then ((if h.medium == 0x02
            then switch h.version ((0x09 ∷ [], text "Janitza UMG 96S") ∷ []) []
            else []))
        else (if is_from manufacturer "LUG"
            then (switch h.version
                ((0x02 ∷ [], text "Landis & Gyr Ultraheat 2WR5")
                  ∷ (0x03 ∷ [], text "Landis & Gyr Ultraheat 2WR6")
                  ∷ (0x04 ∷ [], text "Landis & Gyr Ultraheat UH50")
                  ∷ (0x07 ∷ [], text "Landis & Gyr Ultraheat T230")
                  ∷ [])
                [])
            else (if is_from manufacturer "LSE"
                then (switch h.version ((0x99 ∷ [], text "Siemens WFH21") ∷ []) [])
                else (if is_from manufacturer "NZR"
                    then (switch h.version
                        ((0x01 ∷ [], text "NZR DHZ 5/63") ∷ (0x50 ∷ [], text "NZR IC-M2") ∷ []) [])
                    else (if is_from manufacturer "RAM"
                        then (switch h.version
                            ((0x03 ∷ [], text "Rossweiner ETK/ETW Modularis") ∷ []) [])
                        else (if is_from manufacturer "REL"
                            then (switch h.version
                                ((0x08 ∷ [], text "Relay PadPuls M1")
                                  ∷ (0x12 ∷ [], text "Relay PadPuls M4")
                                  ∷ (0x20 ∷ [], text "Relay Padin 4")
                                  ∷ (0x30 ∷ [], text "Relay AnDi 4")
                                  ∷ (0x40 ∷ [], text "Relay PadPuls M2")
                                  ∷ [])
                                [])
                            else (if is_from manufacturer "RKE"
                                then (switch h.version
                                    ((0x69 ∷ [], text "Ista sensonic II mbus") ∷ []) [])
                                else (if is_from manufacturer "SBC"
                                    then (switch (byte_at h.id_bcd 3)
                                        ((0x10 ∷ 0x19 ∷ [], text "Saia-Burgess ALE3")
                                          ∷ (0x11 ∷ [], text "Saia-Burgess AWD3")
                                          ∷ [])
                                        [])
                                    else otherwise))))))))

unfoldable pub products_seo_to_zrm : ℕ → VariableHeader → List ℕ → List ℕ
products_seo_to_zrm manufacturer h otherwise =
    if is_from manufacturer "SEO" || is_from manufacturer "GTE"
    then (switch (byte_at h.id_bcd 3)
        ((0x30 ∷ [], text "Sensoco PT100")
          ∷ (0x41 ∷ [], text "Sensoco 2-NTC")
          ∷ (0x45 ∷ [], text "Sensoco Laser Light")
          ∷ (0x48 ∷ [], text "Sensoco ADIO")
          ∷ (0x51 ∷ 0x61 ∷ [], text "Sensoco THU")
          ∷ (0x80 ∷ [], text "Sensoco PulseCounter for E-Meter")
          ∷ [])
        [])
    else (if is_from manufacturer "SEN"
        then (switch h.version
            ((0x08 ∷ 0x19 ∷ [], text "Sensus PolluCom E")
              ∷ (0x0B ∷ [], text "Sensus PolluTherm")
              ∷ (0x0E ∷ [], text "Sensus PolluStat E")
              ∷ [])
            [])
        else (if is_from manufacturer "SON"
            then (switch h.version ((0x0D ∷ [], text "Sontex Supercal 531") ∷ []) [])
            else (if is_from manufacturer "SPX"
                then (switch h.version ((0x31 ∷ 0x34 ∷ [], text "Sensus PolluTherm") ∷ []) [])
                else (if is_from manufacturer "SVM"
                    then (switch h.version
                        ((0x08 ∷ [], text "Elster F2 / Deltamess F2")
                          ∷ (0x09 ∷ [], text "Elster F4 / Kamstrup SVM F22")
                          ∷ [])
                        [])
                    else (if is_from manufacturer "TCH"
                        then (switch h.version
                            ((0x26 ∷ [], text "Techem m-bus S")
                              ∷ (0x40 ∷ [], text "Techem ultra S3")
                              ∷ [])
                            [])
                        else (if is_from manufacturer "WZG"
                            then (switch h.version ((0x03 ∷ [], text "Modularis ETW-EAX") ∷ []) [])
                            else (if is_from manufacturer "ZRM"
                                then (switch h.version
                                    ((0x81 ∷ [], text "Minol Minocal C2")
                                      ∷ (0x82 ∷ [], text "Minol Minocal WR3")
                                      ∷ [])
                                    [])
                                else otherwise)))))))

-- `mbus_data_product_name`. `strcpy` copies the name whatever the room for it is.
unfoldable pub product_name : VariableHeader → List ℕ
product_name h =
    let manufacturer = (byte_at h.manufacturer 1 <<< 8) + byte_at h.manufacturer 0 in
    products_abb_to_els manufacturer h (
      products_elv_to_slb manufacturer h
        (products_hyd_to_sbc manufacturer h (products_seo_to_zrm manufacturer h [])))
