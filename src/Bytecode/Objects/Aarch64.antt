-- ===== src/Bytecode/Objects/Aarch64.antt =====
-- execsnoop-kernel/aarch64/execsnoop_kern_skel.h: the object that is embedded in it.
use cgproxy.Base.{List, [], ◌∷◌, Bytes}
use cgproxy.Bytecode.Hex.{hex}

-- A row for each line of the literal.
abbrev pub aarch64_rows : List Bytes
aarch64_rows =
    hex "7f454c460201010000000000000000000100f700010000000000000000"
    ∷ hex "000000000000000000000028050000000000000000000040000000000040000b00"
    ∷ hex "0100850000000e000000bf06000000000000636afcff00000000850000"
    ∷ hex "000f000000bf07000000000000b7010000000000007b1ae8ff00000000"
    ∷ hex "7b1ae0ff000000007b1ad8ff000000007b1ad0ff00000000bf"
    ∷ hex "a200000000000007020000fcffffffbfa300000000000007030000"
    ∷ hex "d0ffffff18010000000000000000000000000000b70400000100000085"
    ∷ hex "00000002000000670000002000000077000000200000005500190000000000"
    ∷ hex "bfa200000000000007020000fcffffff18010000000000000000000000"
    ∷ hex "0000008500000001000000bf080000000000001508120000000000770600"
    ∷ hex "002000000061a1fcff0000000063781c000000000063681400000000"
    ∷ hex "00631810000000000085000000230000000700000078040000bfa10000"
    ∷ hex "0000000007010000f0ffffffb702000008000000bf03000000000000"
    ∷ hex "8500000004000000070800001800000079a3f0ff0000000007030000"
    ∷ hex "6c040000bf81000000000000b7020000040000008500000004000000b7"
    ∷ hex "000000000000009500000000000000bf16000000000000850000000e00000063"
    ∷ hex "0afcff00000000bfa200000000000007020000fcffffff180100"
    ∷ hex "000000000000000000000000008500000001000000bf07000000000000150713"
    ∷ hex "00000000007961100000000000b7020000000000006d120b0000000000bf"
    ∷ hex "71000000000000b7020000100000008500000010000000bf61000000000000"
    ∷ hex "1802000000000000000000000000000018030000ffffffff00000000000000"
    ∷ hex "00bf74000000000000b7050000200000008500000019000000bfa2000000"
    ∷ hex "00000007020000fcffffff18010000000000000000000000000000850000"
    ∷ hex "0003000000b7000000000000009500000000000000010000000400000020000000"
    ∷ hex "0028000000000000040000000400000004000000800000000000000047504c"
    ∷ hex "0006070500000000000000000000000000000000000000000000000000ac00000004"
    ∷ hex "00f1ff00000000000000000000000000000000db00000000000300700100000000"
    ∷ hex "00000000000000000000d400000000000500c0000000000000000000000000000000cd"
    ∷ hex "00000000000500e8000000000000000000000000000000a300000011000800000000"
    ∷ hex "00000000000400000000000000200000001100090000000000000000000400000000"
    ∷ hex "0000000700000011000700140000000000000014000000000000001800000011"
    ∷ hex "000700000000000000000014000000000000008e0000001200030000000000000000"
    ∷ hex "00800100000000000051000000120005000000000000000000f800000000000000"
    ∷ hex "70000000000000000100000008000000b8000000000000000100000008000000"
    ∷ hex "2800000000000000010000000800000088000000000000000100000007000000"
    ∷ hex "d0000000000000000100000008000000002e746578740070657266"
    ∷ hex "5f6576656e7473006d617073007265636f72647300"
    ∷ hex "5f76657273696f6e002e72656c7472616365706f"
    ∷ hex "696e742f73797363616c6c732f7379735f6578"
    ∷ hex "69745f6578656376650073797363616c6c5f6578"
    ∷ hex "69745f657865637665002e72656c747261636570"
    ∷ hex "6f696e742f73797363616c6c732f7379735f65"
    ∷ hex "6e7465725f6578656376650073797363616c6c5f"
    ∷ hex "656e7465725f657865637665005f6c6963656e73"
    ∷ hex "650065786563736e6f6f705f6b65726e2e63002e"
    ∷ hex "737472746162002e73796d746162004c4242315f"
    ∷ hex "34004c4242315f33004c4242305f330000000000000000000000"
    ∷ hex "000000000000000000000000000000000000000000000000000000000000000000000000000000"
    ∷ hex "000000000000000000000000000000000000000000bd000000030000000000000000000000"
    ∷ hex "00000000000000004004000000000000e2000000000000000000000000000000010000"
    ∷ hex "000000000000000000000000000100000001000000060000000000000000000000000000"
    ∷ hex "00400000000000000000000000000000000000000000000000040000000000000000000000"
    ∷ hex "0000000069000000010000000600000000000000000000000000000040000000000000"
    ∷ hex "0080010000000000000000000000000000080000000000000000000000000000006500"
    ∷ hex "00000900000000000000000000000000000000000000f0030000000000002000000000"
    ∷ hex "0000000a00000003000000080000000000000010000000000000002d0000000100"
    ∷ hex "000006000000000000000000000000000000c001000000000000f80000000000000000"
    ∷ hex "000000000000000800000000000000000000000000000029000000090000000000000000"
    ∷ hex "0000000000000000000000100400000000000030000000000000000a000000050000"
    ∷ hex "00080000000000000010000000000000001300000001000000030000000000000000"
    ∷ hex "00000000000000b8020000000000002800000000000000000000000000000004000000"
    ∷ hex "000000000000000000000000a40000000100000003000000000000000000000000000000"
    ∷ hex "e002000000000000040000000000000000000000000000000100000000000000000000"
    ∷ hex "0000000000210000000100000003000000000000000000000000000000e402000000"
    ∷ hex "0000000400000000000000000000000000000004000000000000000000000000000000c5"
    ∷ hex "0000000200000000000000000000000000000000000000e802000000000000080100"
    ∷ hex "0000000000010000000500000008000000000000001800000000000000"
    ∷ []
