-- ===== src/SwapChains/Samples.antt =====
-- A display and a swap chain on which windowed HDR is possible.
use elden_ring_windowed_hdr.Common.{true, false, some, ◌==◌}
use elden_ring_windowed_hdr.SwapChains.Device.{Device, SwapChainDesc, OutputDesc1}

abbrev pub windowed_desc : SwapChainDesc
windowed_desc = record {
  width = 3840;
  height = 2160;
  format = 24;
  buffer_count = 2;
  windowed = 1;
  swap_effect = 4;
  flags = 0;
}

abbrev pub hdr_output : OutputDesc1
hdr_output = record { attached_to_desktop = 1; bits_per_color = 10; color_space = 12 }

-- the only swap chain captured is 7
abbrev pub hdr_display : Device
hdr_display = record {
  captured = λ c. c == 7;
  description = λ c. some windowed_desc;
  fullscreen = λ c. some false;
  output = λ c. some hdr_output;
  pq_support = λ c. some 1;
  set_color_space = λ c space. some true;
}

-- the call of SetColorSpace1 fails
abbrev pub stubborn_display : Device
stubborn_display = record hdr_display { set_color_space = λ c space. some false }
