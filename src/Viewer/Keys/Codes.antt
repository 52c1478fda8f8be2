-- ===== src/Viewer/Keys/Codes.antt =====
-- The key codes of GLFW and of ImGui that client/Source/pe/NetworkInput.cpp names, by name: the
-- numbers are those libraries' own.
use nxdb.Common.{ℕ}

-- `GLFW_KEY_...`. `other` is any key code that the switch does not name.
pub data GlfwKey : Type 0 where
  tab left right up down page_up page_down home : GlfwKey
  end insert delete backspace space enter escape apostrophe : GlfwKey
  comma minus period slash semicolon equal left_bracket backslash : GlfwKey
  right_bracket grave_accent caps_lock scroll_lock num_lock print_screen pause kp_0 : GlfwKey
  kp_1 kp_2 kp_3 kp_4 kp_5 kp_6 kp_7 kp_8 : GlfwKey
  kp_9 kp_decimal kp_divide kp_multiply kp_subtract kp_add kp_enter kp_equal : GlfwKey
  left_shift left_control left_alt left_super right_shift right_control right_alt right_super :
      GlfwKey
  menu key_0 key_1 key_2 key_3 key_4 key_5 key_6 : GlfwKey
  key_7 key_8 key_9 key_a key_b key_c key_d key_e : GlfwKey
  key_f key_g key_h key_i key_j key_k key_l key_m : GlfwKey
  key_n key_o key_p key_q key_r key_s key_t key_u : GlfwKey
  key_v key_w key_x key_y key_z f1 f2 f3 : GlfwKey
  f4 f5 f6 f7 f8 f9 f10 f11 : GlfwKey
  f12 f13 f14 f15 f16 f17 f18 f19 : GlfwKey
  f20 f21 f22 f23 f24 : GlfwKey
  other : ℕ → GlfwKey

-- `ImGuiKey_...`.
pub data ImGuiKey : Type 0 where
  tab left_arrow right_arrow up_arrow down_arrow page_up page_down home : ImGuiKey
  end insert delete backspace space enter escape apostrophe : ImGuiKey
  comma minus period slash semicolon equal left_bracket backslash : ImGuiKey
  right_bracket grave_accent caps_lock scroll_lock num_lock print_screen pause keypad_0 : ImGuiKey
  keypad_1 keypad_2 keypad_3 keypad_4 keypad_5 keypad_6 keypad_7 keypad_8 : ImGuiKey
  keypad_9 keypad_decimal keypad_divide keypad_multiply keypad_subtract keypad_add keypad_enter
        keypad_equal :
      ImGuiKey
  left_shift left_ctrl left_alt left_super right_shift right_ctrl right_alt right_super : ImGuiKey
  menu key_0 key_1 key_2 key_3 key_4 key_5 key_6 : ImGuiKey
  key_7 key_8 key_9 key_a key_b key_c key_d key_e : ImGuiKey
  key_f key_g key_h key_i key_j key_k key_l key_m : ImGuiKey
  key_n key_o key_p key_q key_r key_s key_t key_u : ImGuiKey
  key_v key_w key_x key_y key_z f1 f2 f3 : ImGuiKey
  f4 f5 f6 f7 f8 f9 f10 f11 : ImGuiKey
  f12 f13 f14 f15 f16 f17 f18 f19 : ImGuiKey
  f20 f21 f22 f23 f24 no_key : ImGuiKey
