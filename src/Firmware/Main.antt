-- ===== src/Firmware/Main.antt =====
-- The server that `main` of teensy/usb_rawhid/example.c sets up, with the bytes of its structs, the
-- addresses of its descriptors and the strings of symbols.h as they lie in memory.
use beaverbot.Prelude.{ℕ, ◌≡◌, refl, Option, none, some, List, [], ◌∷◌, map, inr, All}
use beaverbot.Kowhai.{Node}
use beaverbot.Server.{ListId, TreeItem, FunctionItem, Server, kow_undefined_symbol}
use beaverbot.Server.Init.{kowhai_server_init}
use beaverbot.Server.Init.Sizes.{IsWhole, kowhai_server_init_lem}
use beaverbot.Firmware.Trees.{
  sym_teensy, sym_tablesensorevent, sym_motorset, sym_beep, sym_guidance, teensy_descriptor,
  table_sensor_event_descriptor, motor_set_descriptor, beep_descriptor, guidance_descriptor, tags,
  teensy_members, table_sensor_event_members, motor_set_members, beep_members, guidance_members,
}

abbrev pub rawhid_packet_size : ℕ
rawhid_packet_size = 64

abbrev pub kow_tree_id : ℕ → ListId
kow_tree_id id = record { id = id; type = 0 }

abbrev pub kow_tree_id_function_only : ℕ → ListId
kow_tree_id_function_only id = record { id = id; type = 1 }

abbrev pub tree_item : ListId → (address : ℕ) → List Node → Option (List ℕ) → TreeItem
tree_item id address nodes bytes = record {
  list_id = id;
  desc = some (record { address = address; nodes = nodes });
  descriptor_size = 0;
  bytes = bytes;
}

abbrev pub function_item : (id tree_in_id : ℕ) → FunctionItem
function_item id tree_in_id = record {
  list_id = record { id = id; type = 0 };
  details = record { tree_in_id = tree_in_id; tree_out_id = kow_undefined_symbol };
}

abbrev pub function_list : List FunctionItem
function_list =
    function_item sym_motorset sym_motorset
    ∷ function_item sym_beep sym_beep
    ∷ function_item sym_guidance sym_guidance
    ∷ []

module _ (address : ℕ → ℕ) (teensy motor_set beep guidance : List ℕ) where
  abbrev pub tree_list : List TreeItem
  tree_list =
      tree_item (kow_tree_id sym_teensy) (address 0) teensy_descriptor (some teensy)
      ∷ tree_item (kow_tree_id sym_tablesensorevent) (address 1) table_sensor_event_descriptor none
      ∷ tree_item (kow_tree_id_function_only sym_motorset) (address 2) motor_set_descriptor
          (some motor_set)
      ∷ tree_item (kow_tree_id_function_only sym_beep) (address 3) beep_descriptor (some beep)
      ∷ tree_item (kow_tree_id_function_only sym_guidance) (address 4) guidance_descriptor
          (some guidance)
      ∷ []

  unfoldable pub main_server : (symbols : List (List ℕ)) → Option Server
  main_server symbols = kowhai_server_init rawhid_packet_size tree_list function_list symbols

  pub tree_list-IsWhole : All IsWhole tree_list
  tree_list-IsWhole = (
    inr (tags sym_teensy 1, tags sym_teensy 1, teensy_members, address 0, refl),
    (
      inr (
        tags sym_tablesensorevent 1,
        tags sym_tablesensorevent 1,
        table_sensor_event_members,
        address 1,
        refl,
      ),
      (
        inr (tags sym_motorset 1, tags sym_motorset 1, motor_set_members, address 2, refl),
        (
          inr (tags sym_beep 1, tags sym_beep 1, beep_members, address 3, refl),
          (inr (tags sym_guidance 1, tags sym_guidance 1, guidance_members, address 4, refl), tt),
        ),
      ),
    ),
  )

  -- The server is initialised, with the sizes of the five descriptors.
  pub main_server_lem :
      (symbols : List (List ℕ))
      → (s : Server) × (main_server symbols ≡ some s)
        × (map (λ t. t.descriptor_size) s.tree_list ≡ 200 ∷ 40 ∷ 48 ∷ 32 ∷ 48 ∷ [])
  unfolding main_server
  main_server_lem symbols = (
    _,
    kowhai_server_init_lem rawhid_packet_size tree_list function_list symbols tree_list-IsWhole,
    refl,
  )
